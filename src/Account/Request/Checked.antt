-- ===== src/Account/Request/Checked.antt =====
-- Each constructor of `WireRequest` (src/account/protocol.rs) hands out validated requests only.
use kaleidoscope_sdk.Prelude.{Text, ℕ, ◌≡◌, refl, Option, some, []}
use kaleidoscope_sdk.JsonSpan.Value.{Value}
use kaleidoscope_sdk.Account.Error.{
  AccountResult, ok, err, unsafe_request, ok_or, ◌>>◌, >>=-eq-ok, ok-injective,
}
use kaleidoscope_sdk.Account.Secret.{SecretString}
use kaleidoscope_sdk.Account.Url.{Url}
use kaleidoscope_sdk.Account.Model.{DeviceDisplay}
use kaleidoscope_sdk.Account.Endpoint.{UuidText, AccountEndpoint}
use kaleidoscope_sdk.Account.Wire.{Json, WireRequest, validate_request}
use kaleidoscope_sdk.Account.Request.{
  validate_provider, json_request, account_empty, exchange_pkce_request, begin_device_request,
  poll_device_request, refresh_request, revoke_request, get_account_request, begin_link_request,
  unlink_request, list_external_identities_request, list_devices_request, revoke_device_request,
}

module _ (json : Json) (uuid : UuidText) where
  -- What a constructor returns passes `WireRequest::validate`.
  abbrev pub IsChecked : AccountResult WireRequest → Type 0
  IsChecked request = (r : WireRequest) → request ≡ ok r → validate_request json uuid r ≡ ok tt

  checked_request :
      (r s : WireRequest) (v : AccountResult (Unit {0}))
      → validate_request json uuid r ≡ v
      → (v >> ok r) ≡ ok s
      → validate_request json uuid s ≡ ok tt
  checked_request r s (ok tt) e h = rw (← ok-injective h) e
  checked_request r s (err x) e h = cc

  json_request-IsChecked :
      (e : AccountEndpoint) (token : Option SecretString) (v : Value)
      → IsChecked (json_request json uuid e token v)
  unfolding json_request
  json_request-IsChecked e token v s h =
      let (body, _, h') = >>=-eq-ok (ok_or (json.to_vec v) unsafe_request) _ h in
      let r : WireRequest = record { endpoint = e; access_token = token; body = body } in
      checked_request r s (validate_request json uuid r) refl h'

  account_empty-IsChecked :
      (e : AccountEndpoint) (token : SecretString) → IsChecked (account_empty json uuid e token)
  unfolding account_empty
  account_empty-IsChecked e token s h =
      let r : WireRequest = record { endpoint = e; access_token = some token; body = [] } in
      checked_request r s (validate_request json uuid r) refl h

  pub exchange_pkce_request-IsChecked :
      (id : Text) (code verifier : SecretString) (url : Url) (nonce : SecretString)
      (d : DeviceDisplay)
      → IsChecked (exchange_pkce_request json uuid id code verifier url nonce d)
  unfolding exchange_pkce_request
  exchange_pkce_request-IsChecked id code verifier url nonce d = json_request-IsChecked _ _ _

  pub begin_device_request-IsChecked :
      (id : Text) (nonce : SecretString) (d : DeviceDisplay)
      → IsChecked (begin_device_request json uuid id nonce d)
  unfolding begin_device_request
  begin_device_request-IsChecked id nonce d = json_request-IsChecked _ _ _

  pub poll_device_request-IsChecked :
      (id : Text) (code : SecretString) → IsChecked (poll_device_request json uuid id code)
  unfolding poll_device_request
  poll_device_request-IsChecked id code = json_request-IsChecked _ _ _

  pub refresh_request-IsChecked :
      (id : Text) (token nonce : SecretString)
      → IsChecked (refresh_request json uuid id token nonce)
  unfolding refresh_request
  refresh_request-IsChecked id token nonce = json_request-IsChecked _ _ _

  pub revoke_request-IsChecked : (token : SecretString) → IsChecked (revoke_request json uuid token)
  unfolding revoke_request
  revoke_request-IsChecked token = json_request-IsChecked _ _ _

  pub get_account_request-IsChecked :
      (token : SecretString) → IsChecked (get_account_request json uuid token)
  unfolding get_account_request
  get_account_request-IsChecked token = account_empty-IsChecked _ _

  pub begin_link_request-IsChecked :
      (token : SecretString) (provider : Text)
      → IsChecked (begin_link_request json uuid token provider)
  unfolding begin_link_request
  begin_link_request-IsChecked token provider s h =
      let (_, _, h') = >>=-eq-ok (validate_provider provider) _ h in
      json_request-IsChecked _ _ _ s h'

  pub unlink_request-IsChecked :
      (token : SecretString) (id : ℕ) → IsChecked (unlink_request json uuid token id)
  unfolding unlink_request
  unlink_request-IsChecked token id = account_empty-IsChecked _ _

  pub list_external_identities_request-IsChecked :
      (token : SecretString) → IsChecked (list_external_identities_request json uuid token)
  unfolding list_external_identities_request
  list_external_identities_request-IsChecked token = account_empty-IsChecked _ _

  pub list_devices_request-IsChecked :
      (token : SecretString) → IsChecked (list_devices_request json uuid token)
  unfolding list_devices_request
  list_devices_request-IsChecked token = account_empty-IsChecked _ _

  pub revoke_device_request-IsChecked :
      (token : SecretString) (id : ℕ) → IsChecked (revoke_device_request json uuid token id)
  unfolding revoke_device_request
  revoke_device_request-IsChecked token id = json_request-IsChecked _ _ _

pub ruleset checked_requests = (
  exchange_pkce_request-IsChecked, begin_device_request-IsChecked, poll_device_request-IsChecked,
  refresh_request-IsChecked, revoke_request-IsChecked, get_account_request-IsChecked,
  begin_link_request-IsChecked, unlink_request-IsChecked,
  list_external_identities_request-IsChecked, list_devices_request-IsChecked,
  revoke_device_request-IsChecked,
)
