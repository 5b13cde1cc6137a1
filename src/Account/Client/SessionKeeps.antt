-- ===== src/Account/Client/SessionKeeps.antt =====
-- The operations of a signed-in client of src/account/client.rs: they keep every property that
-- survives the passing of time, the sending of a validated request, a write to the credential store
-- and a refresh.
use kaleidoscope_sdk.Prelude.{
  Text, ℕ, String, ◌≡◌, Bool, true, false, Option, none, some, List, [], ◌∷◌,
}
use kaleidoscope_sdk.Account.Error.{AccountResult, ok, err}
use kaleidoscope_sdk.Account.Model.{
  LogoutScope, current_session, all_devices, LocalLogoutPolicy, require_remote_revocation,
  confirmed_local_only, DeviceSummary,
}
use kaleidoscope_sdk.Account.Wire.{WireRequest, WireResponse, validate_request}
use kaleidoscope_sdk.Account.Request.Checked.{
  IsChecked, checked_requests, revoke_device_request-IsChecked, begin_link_request-IsChecked,
  unlink_request-IsChecked,
}
use kaleidoscope_sdk.Account.Secret.{SecretString}
use kaleidoscope_sdk.Account.Store.{StoredCredential}
use kaleidoscope_sdk.Account.Action.{World, tick}
use kaleidoscope_sdk.Account.Action.Keeps.{
  Keeps, keeps_rules, call_rules, Keeps-bind, Keeps-attempt, Keeps-pure,
}
use kaleidoscope_sdk.Account.Client.{AccountClient, ActiveSession}
use kaleidoscope_sdk.Account.Client.Steady.{after_send, Keeps-send_request, Keeps-attempt_send}
use kaleidoscope_sdk.Account.Client.Writes.{Keeps-delete}
use kaleidoscope_sdk.Account.Client.Refresh.{refresh_access}
use kaleidoscope_sdk.Account.Client.Session.{
  online_status, refreshed_status, status_of, status, list_devices_with_access, send_empty,
  revoke_all, revoke_devices, delete_and_report, logout_remote, logout_stored, logout, link, unlink,
  devices, forget_own_device, revoke_device,
}

module _ (client : AccountClient) {P : World → Type 0}
    (steady : (w : World) → P w → P (tick client.env w))
    (sends : (r : WireRequest)
      → validate_request client.json client.uuid r ≡ ok tt
      → (w : World) → P w
      → P (after_send client r w))
    (writes : (w : World) (s : Option StoredCredential) → P w → P (record w { stored = s }))
    (refreshes : Keeps P (refresh_access client)) where
  Keeps-online_status :
      (active : ActiveSession) (stored : StoredCredential) (r : AccountResult WireResponse)
      → Keeps P (online_status client active stored r)
  unfolding online_status
  Keeps-online_status active stored (ok r) = search (keeps_rules)
  Keeps-online_status active stored (err e) = search (keeps_rules)

  Keeps-refreshed_status :
      (stored : StoredCredential) (r : AccountResult ActiveSession)
      → Keeps P (refreshed_status client stored r)
  unfolding refreshed_status
  Keeps-refreshed_status stored (ok active) =
      search (Keeps-attempt_send, keeps_rules, steady, sends, checked_requests, Keeps-online_status)
        depth 40
  Keeps-refreshed_status stored (err e) = search (keeps_rules)

  Keeps-status_of : (found : Option StoredCredential) → Keeps P (status_of client found)
  unfolding status_of
  Keeps-status_of none = search (keeps_rules)
  Keeps-status_of (some stored) =
      Keeps-bind _ _ (Keeps-attempt _ refreshes) (Keeps-refreshed_status stored)

  pub Keeps-status : Keeps P (status client)
  unfolding status
  Keeps-status = search (keeps_rules, call_rules, steady, Keeps-status_of)

  Keeps-list_devices : (token : SecretString) → Keeps P (list_devices_with_access client token)
  unfolding list_devices_with_access
  Keeps-list_devices token =
      search (keeps_rules, steady, sends, Keeps-send_request, checked_requests) depth 40

  Keeps-send_empty :
      (request : AccountResult WireRequest)
      → IsChecked client.json client.uuid request
      → Keeps P (send_empty client request)
  unfolding send_empty
  Keeps-send_empty request checked =
      search (keeps_rules, steady, sends, Keeps-send_request, checked)

  Keeps-revoke_all :
      (token : SecretString) (ds : List DeviceSummary) → Keeps P (revoke_all client token ds)
  unfolding revoke_all
  Keeps-revoke_all token [] = search (keeps_rules)
  Keeps-revoke_all token (d ∷ ds) =
      Keeps-bind _ _
        (Keeps-send_empty _
          (revoke_device_request-IsChecked client.json client.uuid token d.device_id))
        (λ _. Keeps-revoke_all token ds)

  Keeps-revoke_devices :
      (scope : LogoutScope) (token : SecretString) → Keeps P (revoke_devices client scope token)
  unfolding revoke_devices
  Keeps-revoke_devices current_session token = search (keeps_rules)
  Keeps-revoke_devices all_devices token =
      search (keeps_rules, Keeps-list_devices, Keeps-revoke_all)

  Keeps-delete_and_report :
      (word : String) (remote : Bool) (warning : Option String)
      → Keeps P (delete_and_report client word remote warning)
  unfolding delete_and_report
  Keeps-delete_and_report word remote warning =
      search (keeps_rules, Keeps-delete, steady, sends, writes)

  Keeps-logout_remote :
      (scope : LogoutScope) (r : AccountResult ActiveSession)
      → Keeps P (logout_remote client scope r)
  unfolding logout_remote
  Keeps-logout_remote scope (ok active) = search (
    keeps_rules, Keeps-revoke_devices, Keeps-send_empty, checked_requests, Keeps-delete_and_report,
  )
  Keeps-logout_remote scope (err e) = search (keeps_rules, Keeps-delete_and_report)

  Keeps-logout_stored :
      (scope : LogoutScope) (policy : LocalLogoutPolicy)
      → Keeps P (logout_stored client scope policy)
  unfolding logout_stored
  Keeps-logout_stored scope confirmed_local_only = search (Keeps-delete_and_report)
  Keeps-logout_stored scope require_remote_revocation =
      Keeps-bind _ _ (Keeps-attempt _ refreshes) (Keeps-logout_remote scope)

  pub Keeps-logout :
      (scope : LogoutScope) (policy : LocalLogoutPolicy) → Keeps P (logout client scope policy)
  unfolding logout
  Keeps-logout scope policy = search (keeps_rules, call_rules, steady, Keeps-logout_stored)

  pub Keeps-link : (provider : Text) → Keeps P (link client provider)
  unfolding link
  Keeps-link provider = Keeps-bind _ _ refreshes (λ a.
      Keeps-bind _ _
        (Keeps-send_request client steady sends _ _
          (begin_link_request-IsChecked client.json client.uuid a.access_token provider))
        (λ response. search (keeps_rules, call_rules, steady) depth 40))

  pub Keeps-unlink : (id : ℕ) → Keeps P (unlink client id)
  unfolding unlink
  Keeps-unlink id = Keeps-bind _ _ refreshes (λ a.
      Keeps-bind _ _
        (Keeps-send_empty _ (unlink_request-IsChecked client.json client.uuid a.access_token id))
        (λ _. Keeps-pure _))

  pub Keeps-devices : Keeps P (devices client)
  unfolding devices
  Keeps-devices = search (keeps_rules, refreshes, Keeps-list_devices)

  Keeps-forget_own_device : (own : Bool) → Keeps P (forget_own_device client own)
  unfolding forget_own_device
  Keeps-forget_own_device true = search (keeps_rules, Keeps-delete, steady, sends, writes)
  Keeps-forget_own_device false = search (keeps_rules)

  pub Keeps-revoke_device : (id : ℕ) → Keeps P (revoke_device client id)
  unfolding revoke_device
  Keeps-revoke_device id = Keeps-bind _ _ refreshes (λ a.
      Keeps-bind _ _
        (Keeps-send_empty _
          (revoke_device_request-IsChecked client.json client.uuid a.access_token id))
        (λ _. Keeps-bind _ _ (Keeps-forget_own_device _) (λ _. Keeps-pure _)))
