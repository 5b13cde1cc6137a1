-- ===== src/Account/Endpoint.antt =====
-- src/account/protocol.rs, the closed set of routes: `RouteSpec`, `ACCOUNT_OPENAPI_ROUTES` and
-- `AccountEndpoint`. `UuidText` stands for the text form of the crate `uuid`; an identifier is its
-- 128-bit value.
pub mod RoundTrip
use kaleidoscope_sdk.Prelude.{
  if◌then◌else◌, bytes_eq, Text, codes, strip_prefix, strip_suffix, ℕ, String, Bool, Option, none,
  some, List, [], ◌∷◌, ◌++◌,
}
use kaleidoscope_sdk.Account.Error.{AccountResult, ok, err, unsafe_request}

pub record UuidText : Type 0 where
  pub format : ℕ → Text
  pub parse_str : Text → Option ℕ

pub data HttpMethod : Type 0 where
  delete get post : HttpMethod

pub data Authentication : Type 0 where
  public_native_client account_access_token external_identity_link_state : Authentication

pub record RouteSpec : Type 0 where
  pub operation_id : String
  pub method : HttpMethod
  pub path : String
  pub authentication : Authentication

abbrev route : String → HttpMethod → String → Authentication → RouteSpec
route o m p a = record { operation_id = o; method = m; path = p; authentication = a }

unfoldable pub account_openapi_routes : List RouteSpec
account_openapi_routes =
    route "exchangePkceAuthorization" post "/v1/login/pkce/exchange" public_native_client
    ∷ route "beginDeviceAuthorization" post "/v1/device-authorizations" public_native_client
    ∷ route "pollDeviceAuthorization" post "/v1/device-authorizations/token" public_native_client
    ∷ route "refreshTokenFamily" post "/v1/token/refresh" public_native_client
    ∷ route "revokeTokenFamily" post "/v1/token/revoke" account_access_token
    ∷ route "getAccount" get "/v1/account" account_access_token
    ∷ route "beginExternalIdentityLink" post "/v1/external-identities/link" account_access_token
    ∷ route "completeExternalIdentityLink" post "/v1/external-identities/link/complete"
        external_identity_link_state
    ∷ route "listExternalIdentities" get "/v1/external-identities" account_access_token
    ∷ route "unlinkExternalIdentity" delete "/v1/external-identities/{external_identity_id}"
        account_access_token
    ∷ route "listDevices" get "/v1/devices" account_access_token
    ∷ route "revokeDevice" post "/v1/devices/{device_id}/revoke" account_access_token
    ∷ route "listAuditEvents" get "/v1/audit-events" account_access_token
    ∷ []

pub data AccountEndpoint : Type 0 where
  exchange_pkce begin_device_authorization poll_device_authorization refresh : AccountEndpoint
  revoke_token_family get_account begin_external_identity_link : AccountEndpoint
  complete_external_identity_link list_external_identities : AccountEndpoint
  unlink_external_identity : ℕ → AccountEndpoint
  list_devices : AccountEndpoint
  revoke_device : ℕ → AccountEndpoint
  list_audit_events : AccountEndpoint

unfoldable pub method_of : AccountEndpoint → HttpMethod
method_of get_account = get
method_of list_external_identities = get
method_of list_devices = get
method_of list_audit_events = get
method_of (unlink_external_identity id) = delete
method_of _ = post

unfoldable pub authentication_of : AccountEndpoint → Authentication
authentication_of exchange_pkce = public_native_client
authentication_of begin_device_authorization = public_native_client
authentication_of poll_device_authorization = public_native_client
authentication_of refresh = public_native_client
authentication_of complete_external_identity_link = external_identity_link_state
authentication_of _ = account_access_token

unfoldable pub operation_id_of : AccountEndpoint → String
operation_id_of exchange_pkce = "exchangePkceAuthorization"
operation_id_of begin_device_authorization = "beginDeviceAuthorization"
operation_id_of poll_device_authorization = "pollDeviceAuthorization"
operation_id_of refresh = "refreshTokenFamily"
operation_id_of revoke_token_family = "revokeTokenFamily"
operation_id_of get_account = "getAccount"
operation_id_of begin_external_identity_link = "beginExternalIdentityLink"
operation_id_of complete_external_identity_link = "completeExternalIdentityLink"
operation_id_of list_external_identities = "listExternalIdentities"
operation_id_of (unlink_external_identity id) = "unlinkExternalIdentity"
operation_id_of list_devices = "listDevices"
operation_id_of (revoke_device id) = "revokeDevice"
operation_id_of list_audit_events = "listAuditEvents"

-- The paths of the `match` of `parse` that are compared whole.
abbrev is_path : Text → String → Bool
is_path p s = bytes_eq p (codes s)

unfoldable pub fixed_endpoint : HttpMethod → Text → Option AccountEndpoint
fixed_endpoint post p =
    if is_path p "/v1/login/pkce/exchange"
    then some exchange_pkce
    else if is_path p "/v1/device-authorizations"
    then some begin_device_authorization
    else if is_path p "/v1/device-authorizations/token"
    then some poll_device_authorization
    else if is_path p "/v1/token/refresh"
    then some refresh
    else if is_path p "/v1/token/revoke"
    then some revoke_token_family
    else if is_path p "/v1/external-identities/link"
    then some begin_external_identity_link
    else if is_path p "/v1/external-identities/link/complete"
    then some complete_external_identity_link
    else none
fixed_endpoint get p =
    if is_path p "/v1/account"
    then some get_account
    else if is_path p "/v1/external-identities"
    then some list_external_identities
    else if is_path p "/v1/devices"
    then some list_devices
    else if is_path p "/v1/audit-events"
    then some list_audit_events
    else none
fixed_endpoint delete p = none

module _ (uuid : UuidText) where
  unfoldable pub path_of : AccountEndpoint → Text
  path_of exchange_pkce = codes "/v1/login/pkce/exchange"
  path_of begin_device_authorization = codes "/v1/device-authorizations"
  path_of poll_device_authorization = codes "/v1/device-authorizations/token"
  path_of refresh = codes "/v1/token/refresh"
  path_of revoke_token_family = codes "/v1/token/revoke"
  path_of get_account = codes "/v1/account"
  path_of begin_external_identity_link = codes "/v1/external-identities/link"
  path_of complete_external_identity_link = codes "/v1/external-identities/link/complete"
  path_of list_external_identities = codes "/v1/external-identities"
  path_of (unlink_external_identity id) = codes "/v1/external-identities/" ++ uuid.format id
  path_of list_devices = codes "/v1/devices"
  path_of (revoke_device id) = codes "/v1/devices/" ++ (uuid.format id ++ codes "/revoke")
  path_of list_audit_events = codes "/v1/audit-events"

  -- `Uuid::parse_str(id).map(..).map_err(..)`
  with_id : (ℕ → AccountEndpoint) → Text → AccountResult AccountEndpoint
  with_id make id = elim (uuid.parse_str id) [ none ↦ err unsafe_request | some n ↦ ok (make n) ]

  -- The two paths that hold an identifier.
  unfoldable pub parse_with_id : HttpMethod → Text → AccountResult AccountEndpoint
  unfolding with_id
  parse_with_id delete p = elim (strip_prefix p (codes "/v1/external-identities/")) [
    | none ↦ err unsafe_request
    | some id ↦ with_id unlink_external_identity id
  ]
  parse_with_id post p = elim (strip_prefix p (codes "/v1/devices/")) [
    | none ↦ err unsafe_request
    | some tail ↦ elim (strip_suffix tail (codes "/revoke")) [
      | none ↦ err unsafe_request
      | some id ↦ with_id revoke_device id
    ]
  ]
  parse_with_id get p = err unsafe_request

  -- `AccountEndpoint::parse`
  unfoldable pub parse : HttpMethod → Text → AccountResult AccountEndpoint
  unfolding fixed_endpoint parse_with_id
  parse method p = elim (fixed_endpoint method p) [
    | some endpoint ↦ ok endpoint
    | none ↦ parse_with_id method p
  ]
