-- ===== src/Account/Request.antt =====
-- src/account/protocol.rs, the constructors of `WireRequest`: one for each operation, each of which
-- validates what it built.
pub mod Checked
pub mod Safe
use kaleidoscope_sdk.Prelude.{
  ltb, ◌==◌, length, all, Text, codes, is_ascii, is_ascii_alphanumeric, is_empty, ℕ, String, not,
  ◌||◌, Option, none, some, [],
}
use kaleidoscope_sdk.JsonSpan.Value.{Value, string, object, end, member, Members}
use kaleidoscope_sdk.Account.Error.{
  AccountResult, ok, unsafe_request, refuse_if, ok_or, ◌>>=◌, ◌>>◌,
}
use kaleidoscope_sdk.Account.Secret.{SecretString}
use kaleidoscope_sdk.Account.Url.{Url}
use kaleidoscope_sdk.Account.Model.{DevicePlatform, macos, windows, linux, DeviceDisplay}
use kaleidoscope_sdk.Account.Endpoint.{
  UuidText, AccountEndpoint, exchange_pkce, begin_device_authorization, poll_device_authorization,
  refresh, revoke_token_family, get_account, begin_external_identity_link, list_external_identities,
  unlink_external_identity, list_devices, revoke_device,
}
use kaleidoscope_sdk.Account.Wire.{Json, WireRequest, validate_request}

-- A field of a request body.
abbrev field : String → Value → Members → Members
field name v m = member (codes name) v m

abbrev platform_text : DevicePlatform → Text
platform_text macos = codes "macos"
platform_text windows = codes "windows"
platform_text linux = codes "linux"

-- `DeviceDisplayWire`
abbrev display_wire : DeviceDisplay → Value
display_wire d = object (
    field "product_name" (string d.product_name) (
      field "device_label" (string d.device_label) (
        field "platform" (string (platform_text d.platform))
          (field "application_version" (string d.application_version) end))))

-- `validate_provider`
unfoldable pub validate_provider : Text → AccountResult (Unit {0})
validate_provider provider =
    refuse_if
      (is_empty provider
        || ltb 64 (length provider)
        || not (is_ascii provider)
        || not (all (λ c. is_ascii_alphanumeric c || c == b'-' || c == b'_' || c == b'.') provider))
      unsafe_request

module _ (json : Json) (uuid : UuidText) where
  -- `WireRequest::json`
  unfoldable pub json_request :
      AccountEndpoint → Option SecretString → Value → AccountResult WireRequest
  json_request endpoint token value = do
    body ← ok_or (json.to_vec value) unsafe_request
    let request : WireRequest = record { endpoint = endpoint; access_token = token; body = body }
    validate_request json uuid request
    ok request

  -- `WireRequest::account_empty`
  unfoldable pub account_empty : AccountEndpoint → SecretString → AccountResult WireRequest
  account_empty endpoint token = do
    let request : WireRequest = record { endpoint = endpoint; access_token = some token; body = [] }
    validate_request json uuid request
    ok request

  unfoldable pub exchange_pkce_request :
      Text
      → SecretString
      → SecretString
      → Url
      → SecretString
      → DeviceDisplay
      → AccountResult WireRequest
  unfolding json_request
  exchange_pkce_request client_id code verifier redirect_uri nonce display =
      json_request exchange_pkce none (
        object (
          field "client_id" (string client_id) (
            field "code" (string code.expose) (
              field "code_verifier" (string verifier.expose) (
                field "redirect_uri" (string redirect_uri.serialization) (
                  field "nonce" (string nonce.expose)
                    (field "device" (display_wire display) end)))))))

  unfoldable pub begin_device_request :
      Text → SecretString → DeviceDisplay → AccountResult WireRequest
  unfolding json_request
  begin_device_request client_id nonce display = json_request begin_device_authorization none (
      object (
        field "client_id" (string client_id)
          (field "nonce" (string nonce.expose) (field "device" (display_wire display) end))))

  unfoldable pub poll_device_request : Text → SecretString → AccountResult WireRequest
  unfolding json_request
  poll_device_request client_id device_code = json_request poll_device_authorization none (
      object (
        field "client_id" (string client_id) (field "device_code" (string device_code.expose) end)))

  unfoldable pub refresh_request : Text → SecretString → SecretString → AccountResult WireRequest
  unfolding json_request
  refresh_request client_id refresh_token nonce = json_request refresh none (
      object (
        field "client_id" (string client_id) (
          field "refresh_token" (string refresh_token.expose)
            (field "nonce" (string nonce.expose) end))))

  unfoldable pub revoke_request : SecretString → AccountResult WireRequest
  unfolding json_request
  revoke_request token = json_request revoke_token_family (some token) (object end)

  unfoldable pub get_account_request : SecretString → AccountResult WireRequest
  unfolding account_empty
  get_account_request token = account_empty get_account token

  unfoldable pub begin_link_request : SecretString → Text → AccountResult WireRequest
  unfolding json_request
  begin_link_request token provider = do
    validate_provider provider
    json_request begin_external_identity_link (some token)
        (object (field "provider" (string provider) end))

  unfoldable pub unlink_request : SecretString → ℕ → AccountResult WireRequest
  unfolding account_empty
  unlink_request token id = account_empty (unlink_external_identity id) token

  unfoldable pub list_external_identities_request : SecretString → AccountResult WireRequest
  unfolding account_empty
  list_external_identities_request token = account_empty list_external_identities token

  unfoldable pub list_devices_request : SecretString → AccountResult WireRequest
  unfolding account_empty
  list_devices_request token = account_empty list_devices token

  unfoldable pub revoke_device_request : SecretString → ℕ → AccountResult WireRequest
  unfolding json_request
  revoke_device_request token id = json_request (revoke_device id) (some token) (object end)
