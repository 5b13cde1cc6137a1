-- ===== src/Account/Client/Session.antt =====
-- src/account/client.rs: the operations of a signed-in client.
use kaleidoscope_sdk.Prelude.{
  is_some, ltb, leb, ◌==◌, if◌then◌else◌, length, any, Text, has_control, is_empty, ℕ, String, Bool,
  true, false, not, ◌&&◌, ◌||◌, Option, none, some, List, [], ◌∷◌,
}
use kaleidoscope_sdk.Account.Error.{
  AccountResult, ok, err, invalid_response, remote_revocation_unconfirmed, is_revocation,
  is_offline,
}
use kaleidoscope_sdk.Account.Secret.{SecretString}
use kaleidoscope_sdk.Account.Model.{
  LogoutScope, current_session, all_devices, LocalLogoutPolicy, require_remote_revocation,
  confirmed_local_only, online, offline_stale, revoked, AccountStatus, signed_out_status,
  LogoutResult, LinkResult, UnlinkResult, DeviceSummary, DeviceRevokeResult, signed_out,
}
use kaleidoscope_sdk.Account.Config.{as_secs, validate_first_party_verification_url}
use kaleidoscope_sdk.Account.Store.{StoredCredential}
use kaleidoscope_sdk.Account.Wire.{WireResponse, parse_success, expect_empty_success, WireRequest}
use kaleidoscope_sdk.Account.Request.{
  get_account_request, begin_link_request, unlink_request, list_devices_request, revoke_request,
  revoke_device_request,
}
use kaleidoscope_sdk.Account.Oidc.{saturating_add, u64_max}
use kaleidoscope_sdk.Account.Action.{
  ◌>>=◌, ◌>>◌, Action, pure, raise, lift, attempt, refuse_when, load, delete, now_unix, open_link,
}
use kaleidoscope_sdk.Account.Client.{AccountClient, ActiveSession, send_request}
use kaleidoscope_sdk.Account.Client.Refresh.{refresh_access}

abbrev is_current : LogoutScope → Bool
is_current current_session = true
is_current all_devices = false

abbrev stale_status : StoredCredential → AccountStatus
stale_status stored = record {
  version = 1;
  state = offline_stale;
  account_id = some stored.account_id;
  device_id = some stored.device_id;
  stale = true;
}

-- What `list_devices_with_access` refuses in one device, its uniqueness aside.
unfoldable pub device_broken : DeviceSummary → Bool
device_broken d =
    d.device_id == 0
    || is_empty d.label
    || ltb 100 (length d.label)
    || has_control d.label
    || ltb d.last_seen_at d.created_at

abbrev pub contains_id : ℕ → List ℕ → Bool
contains_id id ids = any (λ i. i == id) ids

-- The loop over the devices, with the set of the identifiers seen: `true` where it refuses.
unfoldable pub devices_refused : List ℕ → List DeviceSummary → Bool
unfolding device_broken
devices_refused seen [] = false
devices_refused seen (d ∷ ds) =
    (contains_id d.device_id seen || device_broken d) || devices_refused (d.device_id ∷ seen) ds

module _ (client : AccountClient) where
  -- The answer to `get_account`, in `status`.
  unfoldable pub online_status :
      ActiveSession → StoredCredential → AccountResult WireResponse → Action AccountStatus
  online_status active stored (ok response) = do
    account_id ← lift (parse_success client.json client.json.account_id response 200)
    refuse_when (not (account_id == active.credential.account_id)) invalid_response
    pure (record {
      version = 1;
      state = online;
      account_id = some account_id;
      device_id = some active.credential.device_id;
      stale = false;
    })
  online_status active stored (err e) = if is_offline e then pure (stale_status stored) else raise e

  unfoldable pub refreshed_status :
      StoredCredential → AccountResult ActiveSession → Action AccountStatus
  unfolding online_status
  refreshed_status stored (ok active) = do
    request ← lift (get_account_request client.json client.uuid active.access_token)
    outcome ← attempt (send_request client (ok request) u64_max)
    online_status active stored outcome
  refreshed_status stored (err e) =
      if is_offline e
      then pure (stale_status stored)
      else if is_revocation e
      then pure (signed_out_status revoked)
      else raise e

  unfoldable pub status_of : Option StoredCredential → Action AccountStatus
  unfolding refreshed_status
  status_of none = pure (signed_out_status signed_out)
  status_of (some stored) = do
    refreshed ← attempt (refresh_access client)
    refreshed_status stored refreshed

  -- `status`
  unfoldable pub status : Action AccountStatus
  unfolding status_of
  status = do found ← load client.env; status_of found

  -- `list_devices_with_access`
  unfoldable pub list_devices_with_access : SecretString → Action (List DeviceSummary)
  unfolding devices_refused
  list_devices_with_access token = do
    response ← send_request client (list_devices_request client.json client.uuid token) u64_max
    devices ← lift (parse_success client.json client.json.devices response 200)
    refuse_when (devices_refused [] devices) invalid_response
    pure devices

  -- One request whose answer must be empty, with status 204.
  unfoldable pub send_empty : AccountResult WireRequest → Action (Unit {0})
  send_empty request = do
    response ← send_request client request u64_max
    lift (expect_empty_success client.json response 204)

  -- The loop of `logout` over the devices.
  unfoldable pub revoke_all : SecretString → List DeviceSummary → Action (Unit {0})
  unfolding send_empty
  revoke_all token [] = pure tt
  revoke_all token (d ∷ ds) = do
    send_empty (revoke_device_request client.json client.uuid token d.device_id)
    revoke_all token ds

  unfoldable pub revoke_devices : LogoutScope → SecretString → Action (Unit {0})
  unfolding list_devices_with_access revoke_all
  revoke_devices current_session token = pure tt
  revoke_devices all_devices token = do
    devices ← list_devices_with_access token
    revoke_all token devices

  abbrev status_word : LogoutScope → String
  status_word current_session = "session_revoked"
  status_word all_devices = "all_devices_revoked"

  -- `self.store.delete()?` and the result that it leads to.
  unfoldable pub delete_and_report : String → Bool → Option String → Action LogoutResult
  delete_and_report word remote warning = do
    removed ← delete client.env
    pure (record {
      version = 1;
      status = word;
      remote_revoked = remote;
      local_credential_removed = removed;
      warning = warning;
    })

  -- The `match self.refresh_access()` of `logout`, and what follows it.
  unfoldable pub logout_remote : LogoutScope → AccountResult ActiveSession → Action LogoutResult
  unfolding revoke_devices send_empty delete_and_report
  logout_remote scope (ok active) = do
    revoke_devices scope active.access_token
    send_empty (revoke_request client.json client.uuid active.access_token)
    delete_and_report (status_word scope) true none
  logout_remote scope (err e) =
      if is_revocation e && is_current scope
      then delete_and_report "session_revoked" true none
      else if is_offline e
      then raise remote_revocation_unconfirmed
      else raise e

  unfoldable pub logout_stored : LogoutScope → LocalLogoutPolicy → Action LogoutResult
  unfolding logout_remote delete_and_report
  logout_stored scope confirmed_local_only =
      delete_and_report "local_only" false
        (some "remote session remains valid until expiry or revocation from the account web UI")
  logout_stored scope require_remote_revocation = do
    refreshed ← attempt (refresh_access client)
    logout_remote scope refreshed

  abbrev already_signed_out : LogoutResult
  already_signed_out = record {
    version = 1;
    status = "already_signed_out";
    remote_revoked = false;
    local_credential_removed = false;
    warning = none;
  }

  -- `logout`
  unfoldable pub logout : LogoutScope → LocalLogoutPolicy → Action LogoutResult
  unfolding logout_stored
  logout scope local_policy = do
    found ← load client.env
    if is_some found then logout_stored scope local_policy else pure already_signed_out

  -- `link`
  unfoldable pub link : Text → Action LinkResult
  link provider_name = do
    active ← refresh_access client
    response ←
        send_request client
          (begin_link_request client.json client.uuid active.access_token provider_name) u64_max
    wire ← lift (parse_success client.json client.json.link response 202)
    lift (validate_first_party_verification_url client.config wire.verification_uri)
    now ← now_unix client.env
    refuse_when (leb wire.expires_at now) invalid_response
    later ← now_unix client.env
    refuse_when
        (ltb (saturating_add later (as_secs client.config.interactive_timeout)) wire.expires_at)
        invalid_response
    open_link client.env wire.verification_uri
    pure (record {
      version = 1;
      status = "fresh_auth_required";
      verification_uri = wire.verification_uri;
      expires_at = wire.expires_at;
    })

  -- `unlink`
  unfoldable pub unlink : ℕ → Action UnlinkResult
  unfolding send_empty
  unlink id = do
    active ← refresh_access client
    send_empty (unlink_request client.json client.uuid active.access_token id)
    pure (record { version = 1; status = "unlinked"; external_identity_id = id })

  -- `devices`
  unfoldable pub devices : Action (List DeviceSummary)
  unfolding list_devices_with_access
  devices = do active ← refresh_access client; list_devices_with_access active.access_token

  -- `if device_id == active.credential.device_id() { self.store.delete()?; }`
  unfoldable pub forget_own_device : Bool → Action (Unit {0})
  forget_own_device true = do delete client.env; pure tt
  forget_own_device false = pure tt

  -- `revoke_device`
  unfoldable pub revoke_device : ℕ → Action DeviceRevokeResult
  unfolding send_empty forget_own_device
  revoke_device id = do
    active ← refresh_access client
    send_empty (revoke_device_request client.json client.uuid active.access_token id)
    forget_own_device (id == active.credential.device_id)
    pure (record { version = 1; status = "revoked"; device_id = id })
