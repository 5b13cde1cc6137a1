-- ===== src/Account/Oidc/Token.antt =====
-- src/account/oidc.rs, `ValidatedProvider::verify_id_token`: the compact token and its signature.
use kaleidoscope_sdk.Prelude.{
  is_some, ltb, ◌==◌, if◌then◌else◌, length, take, bytes_eq, Text, codes, is_ascii, has_control,
  contains_byte, is_empty, ℕ, ◌+◌, ◌*◌, Bool, false, not, ◌||◌, Option, none, some, List, [], ◌∷◌,
}
use kaleidoscope_sdk.JsonSpan.Value.{Bytes}
use kaleidoscope_sdk.Account.Error.{
  AccountResult, ok, oidc_verification, refuse_if, ok_or, ◌>>=◌, ◌>>◌,
}
use kaleidoscope_sdk.Account.Secret.{SecretString}
use kaleidoscope_sdk.Account.Config.{AccountClientConfig, contains_text}
use kaleidoscope_sdk.Account.Oidc.{
  Oidc, RsaJwk, TokenHeader, ValidatedProvider, is_supported_algorithm, scheme_of, differs,
  validate_claims,
}

abbrev grow : ℕ → List Text → List Text
grow c [] = (c ∷ []) ∷ []
grow c (part ∷ parts) = (c ∷ part) ∷ parts

-- `str::split` at one byte.
unfoldable pub split : ℕ → Text → List Text
split sep [] = [] ∷ []
split sep (c ∷ cs) = if c == sep then [] ∷ split sep cs else grow c (split sep cs)

-- The three parts of a compact token, none of them empty.
unfoldable pub three_parts : List Text → Option (Text × Text × Text)
three_parts (h ∷ c ∷ s ∷ []) =
    if is_empty h || is_empty c || is_empty s then none else some (h, c, s)
three_parts _ = none

-- `.filter(|key| key.kid == header.kid)`
unfoldable pub candidates : Text → List RsaJwk → List RsaJwk
candidates kid [] = []
candidates kid (k ∷ ks) =
    let rest = candidates kid ks in if bytes_eq k.kid kid then k ∷ rest else rest

-- `let [key] = candidates.as_slice() else { .. }`
unfoldable pub sole : List RsaJwk → Option RsaJwk
sole (k ∷ []) = some k
sole _ = none

unfoldable pub header_refused : List Text → TokenHeader → Bytes → Bool
unfolding differs
header_refused algorithms header signature =
    ltb 1024 (length signature)
    || is_empty header.kid
    || ltb 256 (length header.kid)
    || has_control header.kid
    || is_some header.crit
    || differs header.typ (codes "JWT")
    || not (contains_text algorithms header.alg)

unfoldable pub key_refused : RsaJwk → Text → Bool
unfolding differs
key_refused key alg =
    not (bytes_eq key.kty (codes "RSA")) || differs key.use_ (codes "sig") || differs key.alg alg

-- `bytes.first() == Some(&0)`
abbrev starts_with_zero : Bytes → Bool
starts_with_zero [] = false
starts_with_zero (b ∷ bs) = b == 0

module _ (oidc : Oidc) where
  -- `decode_part`
  unfoldable pub decode_part : Text → AccountResult Bytes
  decode_part value = do
    refuse_if (ltb (12 * 1024) (length value) || contains_byte b'=' value) oidc_verification
    ok_or (oidc.decode_base64 value) oidc_verification

  -- `decode_json_part`
  unfoldable pub decode_json_part {ℓ} : {A : Type ℓ} → (Bytes → Option A) → Text → AccountResult A
  unfolding decode_part
  decode_json_part read value = do bytes ← decode_part value; ok_or (read bytes) oidc_verification

  -- `decode_jwk_component`
  unfoldable pub decode_jwk_component : Text → AccountResult Bytes
  unfolding decode_part
  decode_jwk_component value = do
    bytes ← decode_part value
    refuse_if (is_empty bytes || ltb 1024 (length bytes) || starts_with_zero bytes)
        oidc_verification
    ok bytes

  -- `verify_rsa_signature`
  unfoldable pub verify_rsa_signature :
      Text → Bytes → Bytes → Bytes → Bytes → AccountResult (Unit {0})
  unfolding scheme_of
  verify_rsa_signature alg modulus exponent message signature = do
    scheme ← ok_or (scheme_of alg) oidc_verification
    refuse_if (not (oidc.signature_valid scheme modulus exponent message signature))
        oidc_verification

  -- `verify_id_token`
  unfoldable pub verify_id_token :
      ValidatedProvider
      → AccountClientConfig
      → SecretString
      → Option SecretString
      → ℕ
      → AccountResult Text
  unfolding decode_part decode_json_part decode_jwk_component verify_rsa_signature validate_claims
  verify_id_token provider config id_token nonce now = do
    let compact = id_token.expose
    refuse_if (ltb (16 * 1024) (length compact) || not (is_ascii compact)) oidc_verification
    (encoded_header, encoded_claims, encoded_signature) ←
        ok_or (three_parts (split b'.' compact)) oidc_verification
    header ← decode_json_part oidc.read_header encoded_header
    claims ← decode_json_part oidc.read_claims encoded_claims
    signature ← decode_part encoded_signature
    refuse_if
        (header_refused provider.discovery.id_token_signing_alg_values_supported header signature)
        oidc_verification
    refuse_if (not (is_supported_algorithm header.alg)) oidc_verification
    key ← ok_or (sole (candidates header.kid provider.jwks)) oidc_verification
    refuse_if (key_refused key header.alg) oidc_verification
    modulus ← decode_jwk_component key.n
    exponent ← decode_jwk_component key.e
    let signing_input = take (length encoded_header + length encoded_claims + 1) compact
    refuse_if (not (oidc.key_accepted modulus exponent)) oidc_verification
    verify_rsa_signature header.alg modulus exponent signing_input signature
    validate_claims config claims nonce now
