-- ===== src/Manager/Error.antt =====
-- src/error.rs: `ManagerError` and `Result`. A message that is put together from paths and digests is
-- represented by its fixed words.
use kaleidoscope_sdk.Prelude.{ℕ, String, ◌≡◌, refl, Bool, true, false, arith}
use kaleidoscope_sdk.Account.Error.{AccountError}

-- `io::ErrorKind`, as far as the code looks at it.
pub data ErrorKind : Type 0 where
  already_exists other_kind : ErrorKind

pub data ManagerError : Type 0 where
  usage : String → ManagerError
  engine_not_found : ManagerError
  unsafe_path : String → String → ManagerError
  io : String → ErrorKind → ManagerError
  engine_refused : String → ManagerError
  invalid_engine_contract : String → String → ManagerError
  invalid_manager_config invalid_host_config host_conflict : String → ManagerError
  concurrent_edit invalid_owner_receipt cancelled invalid_profile_name : ManagerError
  no_active_profile : ManagerError
  init_manager_state_recovery : String → String → ManagerError
  profile_root_mismatch : String → String → String → ManagerError
  ambiguous_vault : String → ManagerError
  would_fork_vault : String → ℕ → ManagerError
  doctor_issues : ℕ → ManagerError
  host_config_too_large : String → ManagerError
  account : AccountError → ManagerError

pub data Result {ℓ} (A : Type ℓ) : Type ℓ where
  err : ManagerError → Result A
  ok : A → Result A

module _ {ℓ κ} {A : Type ℓ} {B : Type κ} where
  infixl 5 ◌>>=◌
  abbrev pub ◌>>=◌ : Result A → (A → Result B) → Result B
  ◌>>=◌ (err e) next = err e
  ◌>>=◌ (ok a) next = next a

  -- What a chain that succeeds has gone through.
  pub >>=-eq-ok :
      (first : Result A) (next : A → Result B) {b : B}
      → (first >>= next) ≡ ok b
      → (a : A) × (first ≡ ok a) × (next a ≡ ok b)
  >>=-eq-ok (err e) next done = cc
  >>=-eq-ok (ok a) next done = (a, refl, done)

-- A check, as in `if bad { return Err(e); }`.
abbrev pub refuse_if : Bool → ManagerError → Result (Unit {0})
refuse_if false e = ok tt
refuse_if true e = err e

infixl 5 ◌>>◌
abbrev pub ◌>>◌ {κ} : {B : Type κ} → Result (Unit {0}) → Result B → Result B
check >> rest = check >>= λ _. rest

pub refuse_if-eq-ok {κ} :
    {B : Type κ} (bad : Bool) (e : ManagerError) (rest : Result B) {b : B}
    → (refuse_if bad e >> rest) ≡ ok b
    → (bad ≡ false) × (rest ≡ ok b)
refuse_if-eq-ok false e rest done = (refl, done)
refuse_if-eq-ok true e rest done = cc

pub ok-injective {ℓ} : {A : Type ℓ} {a b : A} → ok a ≡ ok b → a ≡ b
ok-injective h = ground (arith, h)

pub err-ne-ok {ℓ} : {A : Type ℓ} {e : ManagerError} {a : A} → err e ≡ ok a → ⊥
err-ne-ok h = cc
