-- ===== src/Account/Config.antt =====
-- src/account/protocol.rs, `AccountClientConfig` and the checks of URLs. A duration is its number of
-- nanoseconds.
use kaleidoscope_sdk.Prelude.{
  is_some, leb, length, any, bytes_eq, Text, codes, is_ascii, contains_byte, contains_dots,
  is_ascii_whitespace, is_empty, starts_with, ℕ, ◌*◌, ◌/◌, Bool, true, false, not, ◌&&◌, ◌||◌, List,
  [], ◌∷◌,
}
use kaleidoscope_sdk.Account.Error.{
  AccountResult, ok, invalid_configuration, invalid_response, refuse_if, ◌>>=◌, ◌>>◌,
}
use kaleidoscope_sdk.Account.Url.{Url}

abbrev pub seconds : ℕ → ℕ
seconds n = n * 1000000000

-- `Duration::as_secs`
abbrev pub as_secs : ℕ → ℕ
as_secs nanos = nanos / 1000000000

pub record AccountClientConfig : Type 0 where
  pub control_plane_origin : Url
  pub issuer : Url
  pub audience : Text
  pub public_client_id : Text
  pub loopback_callback_path : Text
  pub request_timeout : ℕ
  pub interactive_timeout : ℕ
  pub device_timeout : ℕ
  pub allowed_oidc_origins : List Text

-- `validate_https_url`
unfoldable pub validate_https_url : Url → Bool → AccountResult (Unit {0})
validate_https_url url allow_query =
    refuse_if
      (not (bytes_eq url.scheme (codes "https"))
        || not (is_some url.host_str)
        || not (is_empty url.username)
        || is_some url.password
        || not allow_query && is_some url.query
        || is_some url.fragment)
      (invalid_configuration "account and OIDC endpoints require credential-free HTTPS URLs")

-- `origin_key`
unfoldable pub origin_key : Url → AccountResult Text
unfolding validate_https_url
origin_key url = do validate_https_url url true; ok url.origin

-- `BTreeSet::contains`
unfoldable pub contains_text : List Text → Text → Bool
contains_text ts t = any (λ u. bytes_eq u t) ts

-- The check of the audience and of the client id.
unfoldable pub identifier_valid : Text → Bool
identifier_valid t =
    not (is_empty t) && leb (length t) 200 && is_ascii t && not (any is_ascii_whitespace t)

unfoldable pub callback_path_valid : Text → Bool
callback_path_valid p =
    starts_with p (codes "/")
    && leb (length p) 120
    && not (contains_byte b'?' p || contains_byte b'#' p)
    && not (contains_dots p)

abbrev within : ℕ → ℕ → ℕ → Bool
within low high n = leb (seconds low) n && leb n (seconds high)

-- `AccountClientConfig::validate`
unfoldable pub validate_config : AccountClientConfig → AccountResult (Unit {0})
unfolding validate_https_url origin_key contains_text identifier_valid callback_path_valid
validate_config c = do
  validate_https_url c.control_plane_origin false
  refuse_if
      (not (bytes_eq c.control_plane_origin.path (codes "/"))
        || is_some c.control_plane_origin.query
        || is_some c.control_plane_origin.fragment)
      (invalid_configuration "control-plane origin must not contain a path, query, or fragment")
  validate_https_url c.issuer false
  refuse_if (is_some c.issuer.query || is_some c.issuer.fragment)
      (invalid_configuration "issuer must not contain a query or fragment")
  refuse_if (not (identifier_valid c.audience))
      (invalid_configuration "audience and client id must be bounded ASCII identifiers")
  refuse_if (not (identifier_valid c.public_client_id))
      (invalid_configuration "audience and client id must be bounded ASCII identifiers")
  refuse_if (not (callback_path_valid c.loopback_callback_path))
      (invalid_configuration "loopback callback path is invalid")
  refuse_if
      (not (within 1 60 c.request_timeout)
        || not (within 30 900 c.interactive_timeout)
        || not (within 30 900 c.device_timeout))
      (invalid_configuration "account deadlines are outside the closed bounds")
  issuer_origin ← origin_key c.issuer
  refuse_if (not (contains_text c.allowed_oidc_origins issuer_origin))
      (invalid_configuration "issuer origin must be explicitly allowlisted")
  ok tt

-- `AccountClientConfig::new`
unfoldable pub new_config : Url → Url → Text → Text → Text → AccountResult AccountClientConfig
unfolding validate_config origin_key
new_config origin issuer audience client_id callback_path = do
  issuer_origin ← origin_key issuer
  let config : AccountClientConfig = record {
    control_plane_origin = origin;
    issuer = issuer;
    audience = audience;
    public_client_id = client_id;
    loopback_callback_path = callback_path;
    request_timeout = seconds 15;
    interactive_timeout = seconds 300;
    device_timeout = seconds 600;
    allowed_oidc_origins = issuer_origin ∷ [];
  }
  validate_config config
  ok config

-- `AccountClientConfig::allow_oidc_origin`
unfoldable pub allow_oidc_origin : AccountClientConfig → Url → AccountResult AccountClientConfig
unfolding validate_config origin_key
allow_oidc_origin c origin = do
  key ← origin_key origin
  let config : AccountClientConfig = record c {
    allowed_oidc_origins = key ∷ c.allowed_oidc_origins;
  }
  validate_config config
  ok config

-- `AccountClientConfig::validate_oidc_url`
unfoldable pub validate_oidc_url : AccountClientConfig → Url → Bool → AccountResult (Unit {0})
unfolding validate_https_url origin_key contains_text
validate_oidc_url c url allow_query = do
  validate_https_url url allow_query
  key ← origin_key url
  refuse_if (not (contains_text c.allowed_oidc_origins key))
      (invalid_configuration "OIDC endpoint origin is not allowlisted")

-- `AccountClientConfig::validate_first_party_verification_url`
unfoldable pub validate_first_party_verification_url :
    AccountClientConfig → Url → AccountResult (Unit {0})
unfolding validate_https_url origin_key
validate_first_party_verification_url c url = do
  validate_https_url url true
  theirs ← origin_key url
  ours ← origin_key c.control_plane_origin
  refuse_if (not (bytes_eq theirs ours)) invalid_response
