-- ===== src/Account/Tests.antt =====
-- The account client's protocol on concrete requests, with an identifier of one byte as its text.
use kaleidoscope_sdk.Account.Secret.{is_bounded_ascii, SecretString}
use kaleidoscope_sdk.Account.Payload.{value_allowed}
use kaleidoscope_sdk.Prelude.{bytes_eq, Text, codes, ℕ, ◌≡◌, refl, Option, none, some, [], ◌∷◌}
use kaleidoscope_sdk.JsonSpan.Value.{object, end}
use kaleidoscope_sdk.Account.Error.{ok}
use kaleidoscope_sdk.Account.Endpoint.{
  UuidText, parse, path_of, method_of, revoke_device, post, revoke_token_family,
}
use kaleidoscope_sdk.Account.Endpoint.RoundTrip.{parse-path_of, parse-method_of}
use kaleidoscope_sdk.Account.Wire.{Json, WireRequest, validate_request}
use kaleidoscope_sdk.Account.Request.Safe.{IsSafe, validate_request-IsSafe}

abbrev one_byte : Text → Option ℕ
one_byte (x ∷ []) = some x
one_byte _ = none

abbrev toy_uuid : UuidText
toy_uuid = record { format = λ id. id ∷ []; parse_str = one_byte }

-- It reads every body as the empty object, and no response.
abbrev toy_json : Json
toy_json = record {
  parse_value = λ bytes. some (object end);
  to_vec = λ v. some (codes "{}");
  session = λ bytes. none;
  device_authorization = λ bytes. none;
  account_id = λ bytes. none;
  link = λ bytes. none;
  external_identities = λ bytes. none;
  devices = λ bytes. none;
  error = λ bytes. none;
}

abbrev token : SecretString
token = record { expose = codes "0123456789abcdef0123456789abcdef0123456789abcdef" }

abbrev revocation : WireRequest
revocation = record { endpoint = revoke_token_family; access_token = some token; body = codes "{}" }

parse-path_of_example :
    parse toy_uuid (method_of (revoke_device 7)) (path_of toy_uuid (revoke_device 7))
    ≡ ok (revoke_device 7)
parse-path_of_example = parse-path_of toy_uuid (λ id. refl) (revoke_device 7)

parsed_revocation : parse toy_uuid post (codes "/v1/token/revoke") ≡ ok revoke_token_family
unfolding parse bytes_eq
parsed_revocation = refl

parse-method_of_example : method_of revoke_token_family ≡ post
parse-method_of_example =
    parse-method_of toy_uuid post (codes "/v1/token/revoke") revoke_token_family parsed_revocation

valid_revocation : validate_request toy_json toy_uuid revocation ≡ ok tt
unfolding validate_request parse method_of bytes_eq path_of is_bounded_ascii value_allowed
valid_revocation = refl

validate_request-IsSafe_example : IsSafe toy_json toy_uuid revocation
validate_request-IsSafe_example =
    validate_request-IsSafe toy_json toy_uuid revocation valid_revocation
