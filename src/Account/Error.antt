-- ===== src/Account/Error.antt =====
-- src/account/error.rs: `AccountError` and `AccountResult`. The messages carry static texts only.
use kaleidoscope_sdk.Prelude.{String, ◌≡◌, refl, Bool, true, false, Option, none, some, arith}

pub data AccountError : Type 0 where
  provider_not_configured : AccountError
  invalid_configuration : String → AccountError
  unsafe_request offline deadline_exceeded cancelled authorization_denied : AccountError
  device_authorization_expired rate_limited invalid_response oidc_verification : AccountError
  invalid_pkce_callback refresh_reuse_detected session_revoked : AccountError
  credential_store_unavailable : String → AccountError
  credential_store_failure already_signed_in not_signed_in : AccountError
  refresh_lock_unavailable remote_revocation_unconfirmed interaction_unavailable : AccountError

pub data AccountResult {ℓ} (A : Type ℓ) : Type ℓ where
  ok : A → AccountResult A
  err : AccountError → AccountResult A

module _ {ℓ} {A : Type ℓ} where
  abbrev pub is_ok : AccountResult A → Bool
  is_ok (ok a) = true
  is_ok (err e) = false

-- `?` in a function without effects.
infixl 5 ◌>>=◌ ◌>>◌
module _ {ℓ κ} {A : Type ℓ} {B : Type κ} where
  abbrev pub ◌>>=◌ : AccountResult A → (A → AccountResult B) → AccountResult B
  ◌>>=◌ (ok a) next = next a
  ◌>>=◌ (err e) next = err e

-- `if broken { return Err(e); }`
abbrev pub refuse_if : Bool → AccountError → AccountResult (Unit {0})
refuse_if true e = err e
refuse_if false e = ok tt

-- `check?;`
abbrev pub ◌>>◌ {κ} : {B : Type κ} → AccountResult (Unit {0}) → AccountResult B → AccountResult B
check >> rest = check >>= λ _. rest

-- `ok_or`
abbrev pub ok_or {ℓ} : {A : Type ℓ} → Option A → AccountError → AccountResult A
ok_or none e = err e
ok_or (some a) e = ok a

pub err-ne-ok {ℓ} : {A : Type ℓ} {e : AccountError} {a : A} → err e ≡ ok a → ⊥
err-ne-ok h = cc

pub ok-injective {ℓ} : {A : Type ℓ} {a b : A} → ok a ≡ ok b → a ≡ b
ok-injective h = ground (arith, h)

-- A chain of checks that succeeds has succeeded at its first link.
module _ {ℓ κ} {A : Type ℓ} {B : Type κ} where
  pub >>=-eq-ok :
      (first : AccountResult A) (next : A → AccountResult B) {b : B}
      → (first >>= next) ≡ ok b
      → (a : A) × (first ≡ ok a) × (next a ≡ ok b)
  >>=-eq-ok (err e) next done = absurd (err-ne-ok done)
  >>=-eq-ok (ok a) next done = (a, refl, done)

pub refuse_if-eq-ok {ℓ} :
    {B : Type ℓ} (c : Bool) (e : AccountError) (k : AccountResult B) {b : B}
    → (refuse_if c e >> k) ≡ ok b
    → (c ≡ false) × (k ≡ ok b)
refuse_if-eq-ok true e k h = cc
refuse_if-eq-ok false e k h = (refl, h)

-- `matches!(error, RefreshReuseDetected | SessionRevoked)`
abbrev pub is_revocation : AccountError → Bool
is_revocation refresh_reuse_detected = true
is_revocation session_revoked = true
is_revocation _ = false

-- `Offline | DeadlineExceeded`
abbrev pub is_offline : AccountError → Bool
is_offline offline = true
is_offline deadline_exceeded = true
is_offline _ = false
