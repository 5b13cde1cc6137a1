-- ===== src/Account/Oidc/Claims.antt =====
-- What `validate_claims` of src/account/oidc.rs guarantees of the claims that it accepts.
use kaleidoscope_sdk.Prelude.{
  ltb, leb, length, bytes_eq, bytes_eq→eq, Text, has_control, is_empty, ℕ, ◌≤◌, ◌<◌, ◌≡◌, refl, sym,
  ap, true, false, not, ◌||◌, Option, none, some, List, arith,
}
use kaleidoscope_sdk.Account.Error.{ok, oidc_verification, refuse_if-eq-ok, ok-injective}
use kaleidoscope_sdk.Account.Secret.{SecretString, constant_time_eq}
use kaleidoscope_sdk.Account.Config.{AccountClientConfig, contains_text}
use kaleidoscope_sdk.Account.Oidc.{
  TokenClaims, audiences_of, audience_refused, nonce_refused, validate_claims, saturating_add,
  distinct_count,
}

-- A login with a nonce is answered by that nonce, one without a nonce by none.
pub Answers : Option SecretString → Option Text → Type 0
Answers none claim = claim ≡ none
Answers (some nonce) claim = claim ≡ some nonce.expose

-- Claims that stand at the time `now`, for this client and this login.
pub record IsAccepted (config : AccountClientConfig) (claims : TokenClaims)
    (nonce : Option SecretString) (now : ℕ) : Type 0 where
  pub issued_by : claims.iss ≡ config.issuer.serialization
  pub not_expired : now < claims.exp
  pub not_early : claims.iat ≤ saturating_add now 60
  pub ordered : claims.iat < claims.exp
  pub for_us : contains_text (audiences_of claims.aud) config.audience ≡ true
  pub few : length (audiences_of claims.aud) ≤ 16
  pub distinct : distinct_count (audiences_of claims.aud) ≡ length (audiences_of claims.aud)
  pub same_login : Answers nonce claims.nonce

nonce_refused-Answers :
    (nonce : Option SecretString) (claim : Option Text)
    → nonce_refused nonce claim ≡ false
    → Answers nonce claim
unfolding nonce_refused Answers constant_time_eq
nonce_refused-Answers none none h = refl
nonce_refused-Answers none (some t) h = absurd (ground (arith, h))
nonce_refused-Answers (some n) none h = absurd (ground (arith, h))
nonce_refused-Answers (some n) (some t) h =
    let same : bytes_eq n.expose t ≡ true = ground (arith, h) in
    ap some (sym (bytes_eq→eq n.expose t same))

audience_lem :
    (config : AccountClientConfig) (ts : List Text) (azp : Option Text)
    → audience_refused config ts azp ≡ false
    → (contains_text ts config.audience ≡ true) × (length ts ≤ 16) × (distinct_count ts ≡ length ts)
unfolding audience_refused
audience_lem config ts azp h = (ground (arith, h), ground (arith, h), ground (arith, h))

-- Claims that `validate_claims` accepts give the subject they name; they are issued by the configured
-- issuer, have not expired, are not issued more than a minute ahead nor after they expire, name this
-- audience among at most 16 distinct ones, and answer the nonce of this login.
pub validate_claims-IsAccepted :
    (config : AccountClientConfig) (claims : TokenClaims) (nonce : Option SecretString) (now : ℕ)
    (subject : Text)
    → validate_claims config claims nonce now ≡ ok subject
    → (subject ≡ claims.sub) × IsAccepted config claims nonce now
unfolding validate_claims
validate_claims-IsAccepted config claims nonce now subject h =
    let (times, h1) =
      refuse_if-eq-ok
        (not (bytes_eq claims.iss config.issuer.serialization)
          || is_empty claims.sub
          || ltb 512 (length claims.sub)
          || has_control claims.sub
          || leb claims.exp now
          || ltb (saturating_add now 60) claims.iat
          || leb claims.exp claims.iat)
        oidc_verification _ h in
    let (audience, h2) =
      refuse_if-eq-ok (audience_refused config (audiences_of claims.aud) claims.azp)
        oidc_verification _ h1 in
    let audience_kept = audience_lem config (audiences_of claims.aud) claims.azp audience in
    let (login, h3) = refuse_if-eq-ok (nonce_refused nonce claims.nonce) oidc_verification _ h2 in
    (
      sym (ok-injective h3),
      record {
        issued_by = bytes_eq→eq claims.iss config.issuer.serialization (ground (arith, times));
        not_expired = ground (arith, times);
        not_early = ground (arith, times);
        ordered = ground (arith, times);
        for_us = audience_kept.0;
        few = audience_kept.1;
        distinct = audience_kept.2;
        same_login = nonce_refused-Answers nonce claims.nonce login;
      },
    )
