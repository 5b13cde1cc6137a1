-- ===== src/Account/Oidc.antt =====
-- src/account/oidc.rs: the provider's documents and the checks of an ID token. `Oidc` stands for the
-- crates that decode base64url and JSON, parse a URL and check an RSA signature.
pub mod Token
pub mod Claims
use kaleidoscope_sdk.Prelude.{
  ltb, leb, ◌==◌, if◌then◌else◌, length, any, bytes_eq, Text, codes, is_ascii, has_control,
  is_empty, ℕ, suc, ◌+◌, ◌-◌, ◌^◌, min, String, Bool, true, false, not, ◌&&◌, ◌||◌, Option, none,
  some, List, [], ◌∷◌,
}
use kaleidoscope_sdk.JsonSpan.Value.{Bytes}
use kaleidoscope_sdk.Account.Error.{AccountResult, ok, oidc_verification, refuse_if, ◌>>=◌, ◌>>◌}
use kaleidoscope_sdk.Account.Secret.{SecretString, constant_time_eq, is_bounded_ascii}
use kaleidoscope_sdk.Account.Url.{Url}
use kaleidoscope_sdk.Account.Config.{AccountClientConfig, contains_text}

pub record DiscoveryDocument : Type 0 where
  pub issuer : Url
  pub authorization_endpoint : Url
  pub jwks_uri : Url
  pub id_token_signing_alg_values_supported : List Text

pub record RsaJwk : Type 0 where
  pub kty : Text
  pub kid : Text
  pub use_ : Option Text
  pub alg : Option Text
  pub n : Text
  pub e : Text

pub record TokenHeader : Type 0 where
  pub alg : Text
  pub kid : Text
  pub typ : Option Text
  pub crit : Option (List Text)

pub data AudienceClaim : Type 0 where
  one : Text → AudienceClaim
  many : List Text → AudienceClaim

pub record TokenClaims : Type 0 where
  pub iss : Text
  pub aud : AudienceClaim
  pub azp : Option Text
  pub sub : Text
  pub exp : ℕ
  pub iat : ℕ
  pub nonce : Option Text

pub data SignatureScheme : Type 0 where
  rs256 rs384 rs512 ps256 ps384 ps512 : SignatureScheme

pub record Oidc : Type 0 where
  pub parse_url : Text → Option Url
  -- `query_pairs_mut().append_pair(..)`, one pair after the other.
  pub append_pairs : Url → List (Text × Text) → Url
  pub decode_base64 : Text → Option Bytes
  pub encode_base64 : Bytes → Text
  pub sha256 : Bytes → Bytes
  pub read_discovery : Bytes → Option DiscoveryDocument
  pub read_jwks : Bytes → Option (List RsaJwk)
  pub read_header : Bytes → Option TokenHeader
  pub read_claims : Bytes → Option TokenClaims
  -- `RsaPublicKey::new` accepts the modulus and the exponent.
  pub key_accepted : Bytes → Bytes → Bool
  -- The scheme's verifying key for a modulus and an exponent accepts a message and a signature.
  pub signature_valid : SignatureScheme → Bytes → Bytes → Bytes → Bytes → Bool

-- `ValidatedProvider`
pub record ValidatedProvider : Type 0 where
  pub discovery : DiscoveryDocument
  pub jwks : List RsaJwk

abbrev pub u64_max : ℕ
u64_max = 2 ^ 64 - 1

-- `u64::saturating_add`
abbrev pub saturating_add : ℕ → ℕ → ℕ
saturating_add a b = min (a + b) u64_max

abbrev is_text : Text → String → Bool
is_text t s = bytes_eq t (codes s)

-- `is_supported_algorithm`
unfoldable pub is_supported_algorithm : Text → Bool
is_supported_algorithm t =
    is_text t "RS256"
    || is_text t "RS384"
    || is_text t "RS512"
    || is_text t "PS256"
    || is_text t "PS384"
    || is_text t "PS512"

-- The `match` of `verify_rsa_signature`.
unfoldable pub scheme_of : Text → Option SignatureScheme
scheme_of t =
    if is_text t "RS256"
    then some rs256
    else if is_text t "RS384"
    then some rs384
    else if is_text t "RS512"
    then some rs512
    else if is_text t "PS256"
    then some ps256
    else if is_text t "PS384"
    then some ps384
    else if is_text t "PS512"
    then some ps512
    else none

-- `value.is_some_and(|value| value != expected)`
unfoldable pub differs : Option Text → Text → Bool
differs none expected = false
differs (some t) expected = not (bytes_eq t expected)

-- `value == Some(expected)`
unfoldable pub some_eq : Option Text → Text → Bool
some_eq none expected = false
some_eq (some t) expected = bytes_eq t expected

-- The number of elements of the `BTreeSet`.
unfoldable pub distinct_count : List Text → ℕ
distinct_count [] = 0
distinct_count (t ∷ ts) =
    let rest = distinct_count ts in if contains_text ts t then rest else suc rest

abbrev pub audiences_of : AudienceClaim → List Text
audiences_of (one t) = t ∷ []
audiences_of (many ts) = ts

-- The second condition of `validate_claims` that is refused.
unfoldable pub audience_refused : AccountClientConfig → List Text → Option Text → Bool
unfolding distinct_count contains_text differs some_eq
audience_refused config audiences azp =
    length audiences == 0
    || ltb 16 (length audiences)
    || not (distinct_count audiences == length audiences)
    || not (contains_text audiences config.audience)
    || any (λ t. is_empty t || ltb 512 (length t) || not (is_ascii t)) audiences
    || ltb 1 (length audiences) && not (some_eq azp config.public_client_id)
    || differs azp config.public_client_id

-- The last `match` of `validate_claims`: `true` where it refuses.
unfoldable pub nonce_refused : Option SecretString → Option Text → Bool
unfolding constant_time_eq is_bounded_ascii
nonce_refused (some expected) (some actual) =
    not (is_bounded_ascii (record { expose = actual }))
    || not (constant_time_eq expected (record { expose = actual }))
nonce_refused none none = false
nonce_refused _ _ = true

-- `validate_claims`
unfoldable pub validate_claims :
    AccountClientConfig → TokenClaims → Option SecretString → ℕ → AccountResult Text
unfolding audience_refused nonce_refused
validate_claims config claims expected_nonce now = do
  refuse_if
      (not (bytes_eq claims.iss config.issuer.serialization)
        || is_empty claims.sub
        || ltb 512 (length claims.sub)
        || has_control claims.sub
        || leb claims.exp now
        || ltb (saturating_add now 60) claims.iat
        || leb claims.exp claims.iat)
      oidc_verification
  refuse_if (audience_refused config (audiences_of claims.aud) claims.azp) oidc_verification
  refuse_if (nonce_refused expected_nonce claims.nonce) oidc_verification
  ok claims.sub
