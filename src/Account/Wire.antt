-- ===== src/Account/Wire.antt =====
-- src/account/protocol.rs, `WireRequest`, `WireResponse` and the reading of responses. `Json` stands
-- for `serde_json`: at `Value`, and at the closed structures of the responses.
use kaleidoscope_sdk.Prelude.{
  is_some, ltb, leb, ◌==◌, if◌then◌else◌, length, bytes_eq, Text, codes, is_empty, ℕ, ◌*◌, String,
  Bool, true, false, not, ◌&&◌, ◌||◌, Option, none, some, List,
}
use kaleidoscope_sdk.JsonSpan.Value.{Bytes, Value, null}
use kaleidoscope_sdk.Account.Error.{
  AccountError, AccountResult, ok, err, refuse_if, ok_or, ◌>>=◌, ◌>>◌, unsafe_request, offline,
  cancelled, authorization_denied, device_authorization_expired, rate_limited, invalid_response,
  refresh_reuse_detected, session_revoked,
}
use kaleidoscope_sdk.Account.Secret.{SecretString, is_bounded_ascii}
use kaleidoscope_sdk.Account.Url.{Url}
use kaleidoscope_sdk.Account.Model.{DeviceSummary, ExternalIdentitySummary}
use kaleidoscope_sdk.Account.Payload.{value_allowed}
use kaleidoscope_sdk.Account.Endpoint.{
  UuidText, AccountEndpoint, method_of, authentication_of, path_of, parse, account_access_token,
  exchange_pkce, begin_device_authorization, poll_device_authorization, refresh,
  revoke_token_family, get_account, begin_external_identity_link, complete_external_identity_link,
  list_external_identities, unlink_external_identity, list_devices, revoke_device,
  list_audit_events,
}

abbrev pub max_account_body_bytes : ℕ
max_account_body_bytes = 64 * 1024

abbrev pub max_oidc_document_bytes : ℕ
max_oidc_document_bytes = 1024 * 1024

pub record SessionWire : Type 0 where
  pub token_type : Text
  pub access_token : Text
  pub refresh_token : Text
  pub id_token : Text
  pub expires_in : ℕ
  pub account_id : ℕ
  pub device_id : ℕ
  pub token_family_id : ℕ
  pub refresh_generation : ℕ

pub record DeviceAuthorizationWire : Type 0 where
  pub device_code : Text
  pub user_code : Text
  pub verification_uri : Url
  pub expires_at : ℕ
  pub interval_seconds : ℕ

pub record LinkWire : Type 0 where
  pub verification_uri : Url
  pub expires_at : ℕ

-- `AccountWire`, `ExternalIdentitiesWire`, `DevicesWire` and `ErrorWire` have one field each, which
-- stands for them.
pub record Json : Type 0 where
  pub parse_value : Bytes → Option Value
  pub to_vec : Value → Option Bytes
  pub session : Bytes → Option SessionWire
  pub device_authorization : Bytes → Option DeviceAuthorizationWire
  pub account_id : Bytes → Option ℕ
  pub link : Bytes → Option LinkWire
  pub external_identities : Bytes → Option (List ExternalIdentitySummary)
  pub devices : Bytes → Option (List DeviceSummary)
  pub error : Bytes → Option Text

pub record WireRequest : Type 0 where
  pub endpoint : AccountEndpoint
  pub access_token : Option SecretString
  pub body : Bytes

pub record WireResponse : Type 0 where
  pub status : ℕ
  pub body : Bytes

-- `WireResponse::new`
unfoldable pub new_response : ℕ → Bytes → AccountResult WireResponse
new_response status body = do
  refuse_if (ltb max_oidc_document_bytes (length body)) invalid_response
  ok (record { status = status; body = body })

abbrev pub is_code : Text → String → Bool
is_code code s = bytes_eq code (codes s)

-- The derived `==` of `AccountEndpoint`.
abbrev pub variant : AccountEndpoint → ℕ × ℕ
variant exchange_pkce = (0, 0)
variant begin_device_authorization = (1, 0)
variant poll_device_authorization = (2, 0)
variant refresh = (3, 0)
variant revoke_token_family = (4, 0)
variant get_account = (5, 0)
variant begin_external_identity_link = (6, 0)
variant complete_external_identity_link = (7, 0)
variant list_external_identities = (8, 0)
variant (unlink_external_identity id) = (9, id)
variant list_devices = (10, 0)
variant (revoke_device id) = (11, id)
variant list_audit_events = (12, 0)

unfoldable pub endpoint_eq : AccountEndpoint → AccountEndpoint → Bool
endpoint_eq a b = (variant a).0 == (variant b).0 && (variant a).1 == (variant b).1

unfoldable pub wants_token : AccountEndpoint → Bool
unfolding authentication_of
wants_token e = elim (authentication_of e) [ account_access_token ↦ true | _ ↦ false ]

unfoldable pub token_refused : Option SecretString → Bool
token_refused none = false
token_refused (some token) = not (is_bounded_ascii token)

abbrev pub same_bool : Bool → Bool → Bool
same_bool true b = b
same_bool false b = not b

-- The `match` of `map_error_response` on the error code, for a status other than 429.
unfoldable pub error_of_code : ℕ → Option Text → AccountError
error_of_code status none = if leb 500 status then offline else invalid_response
error_of_code status (some code) =
    if is_code code "authorization_pending" || is_code code "slow_down"
    then invalid_response
    else if is_code code "access_denied"
    then authorization_denied
    else if is_code code "expired_token"
    then device_authorization_expired
    else if is_code code "cancelled"
    then cancelled
    else if is_code code "token_reuse"
    then refresh_reuse_detected
    else if is_code code "invalid_grant" || is_code code "session_revoked"
    then session_revoked
    else if leb 500 status
    then offline
    else invalid_response

pub data DevicePollError : Type 0 where
  pending slow_down denied expired poll_cancelled : DevicePollError

-- The `match` of `device_poll_error`.
unfoldable pub poll_error_of_code : Option Text → AccountResult DevicePollError
poll_error_of_code none = err invalid_response
poll_error_of_code (some code) =
    if is_code code "authorization_pending"
    then ok pending
    else if is_code code "slow_down"
    then ok slow_down
    else if is_code code "access_denied"
    then ok denied
    else if is_code code "expired_token"
    then ok expired
    else if is_code code "cancelled"
    then ok poll_cancelled
    else err invalid_response

module _ (json : Json) where
  -- `validate_account_payload`
  unfoldable pub validate_account_payload : Bytes → AccountResult (Unit {0})
  validate_account_payload bytes = do
    refuse_if (ltb max_account_body_bytes (length bytes)) unsafe_request
    value ← ok_or (json.parse_value bytes) unsafe_request
    refuse_if (not (value_allowed value)) unsafe_request

  -- `WireRequest::validate`
  unfoldable pub validate_request : UuidText → WireRequest → AccountResult (Unit {0})
  unfolding validate_account_payload endpoint_eq wants_token token_refused
  validate_request uuid r = do
    reparsed ← parse uuid (method_of r.endpoint) (path_of uuid r.endpoint)
    refuse_if
        (not (endpoint_eq reparsed r.endpoint)
          || not (same_bool (wants_token r.endpoint) (is_some r.access_token))
          || token_refused r.access_token
          || ltb max_account_body_bytes (length r.body))
        unsafe_request
    if is_empty r.body then ok tt else validate_account_payload r.body

  -- `map_error_response`
  unfoldable pub map_error_response : WireResponse → AccountError
  map_error_response response =
      if response.status == 429
      then rate_limited
      else error_of_code response.status (json.error response.body)

  -- `parse_success`, for the reader of the structure that the caller expects.
  unfoldable pub parse_success {ℓ} :
      {A : Type ℓ} → (Bytes → Option A) → WireResponse → ℕ → AccountResult A
  unfolding map_error_response
  parse_success read response expected_status = do
    refuse_if
        (not (response.status == expected_status)
          || ltb max_account_body_bytes (length response.body))
        (map_error_response response)
    ok_or (read response.body) invalid_response

  -- `serde_json::from_slice::<Value>(..).is_ok_and(|value| value.is_null())`
  unfoldable pub is_null_body : Bytes → Bool
  is_null_body body = elim (json.parse_value body) [
    | none ↦ false
    | some v ↦ elim v [ null ↦ true | _ ↦ false ]
  ]

  -- `expect_empty_success`
  unfoldable pub expect_empty_success : WireResponse → ℕ → AccountResult (Unit {0})
  unfolding map_error_response is_null_body
  expect_empty_success response expected_status =
      if response.status == expected_status
        && (is_empty response.body || is_null_body response.body)
      then ok tt
      else err (map_error_response response)

  -- `device_poll_error`
  unfoldable pub device_poll_error : WireResponse → AccountResult DevicePollError
  unfolding map_error_response
  device_poll_error response =
      if response.status == 400
      then poll_error_of_code (json.error response.body)
      else err (map_error_response response)
