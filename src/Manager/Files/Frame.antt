-- ===== src/Manager/Files/Frame.antt =====
-- A file that a call does not name is left as it is, also where the call fails.
use kaleidoscope_sdk.Prelude.{
  ℕ, ◌≡◌, refl, sym, ap, ◌∙◌, Bool, true, false, [], ◌∷◌, List, Text, Option, some, Bool-cases, inl,
  inr, if◌then◌else◌, bytes_eq→eq, bytes_eq_self, arith, String,
}
use kaleidoscope_sdk.JsonSpan.Value.{Bytes}
use kaleidoscope_sdk.Manager.Error.{Result, ok, err}
use kaleidoscope_sdk.Manager.Files.Paths.{FilePath, names_eq, path_eq, same_flag}
use kaleidoscope_sdk.Manager.Files.Os.{
  Disk, Entry, file, entry_at, without, put, Os, Machine, Call, pure, lift, attempt, change, call,
  look_up, inspect_entry, go_on, ◌>>=◌,
}

names_eq→eq : (a b : List Text) → names_eq a b ≡ true → a ≡ b
unfolding names_eq
names_eq→eq [] [] h = refl
names_eq→eq [] (y ∷ b) h = cc
names_eq→eq (x ∷ a) [] h = cc
names_eq→eq (x ∷ a) (y ∷ b) h = ground (arith, bytes_eq→eq x y, names_eq→eq a b)

names_eq_self : (a : List Text) → names_eq a a ≡ true
unfolding names_eq
names_eq_self [] = refl
names_eq_self (x ∷ a) = rw (bytes_eq_self x) (names_eq_self a)

same_flag_self : (a : Bool) → same_flag a a ≡ true
same_flag_self true = refl
same_flag_self false = refl

pub path_eq_self : (p : FilePath) → path_eq p p ≡ true
unfolding path_eq
path_eq_self p = rw (same_flag_self p.is_absolute) (names_eq_self p.names)

same_flag→eq : (a b : Bool) → same_flag a b ≡ true → a ≡ b
same_flag→eq true b h = sym h
same_flag→eq false b h = ground arith

pub path_eq→eq : (p q : FilePath) → path_eq p q ≡ true → p ≡ q
unfolding path_eq
path_eq→eq p q h =
    ground (arith, same_flag→eq p.is_absolute q.is_absolute, names_eq→eq p.names q.names)

module _ (p : FilePath) where
  pub entry_at-without :
      (q : FilePath) (disk : Disk)
      → path_eq q p ≡ false
      → entry_at p (without q disk) ≡ entry_at p disk
  unfolding entry_at without
  entry_at-without q [] other = refl
  entry_at-without q ((r, e) ∷ disk) other = elim (Bool-cases (path_eq r q)) [
    | inl same ↦
        let away : path_eq r p ≡ false = ap (λ s. path_eq s p) (path_eq→eq r q same) ∙ other in
        rw (same, away) (entry_at-without q disk other)
    | inr kept ↦
        rw kept (ap (λ f. if path_eq r p then some e else f) (entry_at-without q disk other))
  ]

  -- What stands at the path is a file, and is the same file after the call.
  abbrev pub HoldsFile : Bytes → Option ℕ → Disk → Type 0
  HoldsFile bytes mode disk = entry_at p disk ≡ some (file bytes mode)

  abbrev pub Keeps {ℓ} : {A : Type ℓ} → Os A → Type 0
  Keeps m =
      (disk : Disk) (bytes : Bytes) (mode : Option ℕ)
      → HoldsFile bytes mode disk
      → HoldsFile bytes mode (m disk).1

  pub pure-Keeps {ℓ} : {A : Type ℓ} (a : A) → Keeps (pure a)
  unfolding pure
  pure-Keeps a disk bytes mode h = h

  pub lift-Keeps {ℓ} : {A : Type ℓ} (r : Result A) → Keeps (lift r)
  unfolding lift
  lift-Keeps r disk bytes mode h = h

  pub look_up-Keeps : (q : FilePath) → Keeps (look_up q)
  unfolding look_up
  look_up-Keeps q disk bytes mode h = h

  pub attempt-Keeps {ℓ} : {A : Type ℓ} (m : Os A) → Keeps m → Keeps (attempt m)
  unfolding attempt
  attempt-Keeps m keeps disk bytes mode h = keeps disk bytes mode h

  go_on-Keeps {ℓ κ} :
      {A : Type ℓ} {B : Type κ} (r : Result A) (next : A → Os B)
      → ((a : A) → Keeps (next a))
      → Keeps (go_on r next)
  go_on-Keeps (err e) next keeps disk bytes mode h = h
  go_on-Keeps (ok a) next keeps disk bytes mode h = keeps a disk bytes mode h

  pub bind-Keeps {ℓ κ} :
      {A : Type ℓ} {B : Type κ} (m : Os A) (next : A → Os B)
      → Keeps m
      → ((a : A) → Keeps (next a))
      → Keeps (m >>= next)
  unfolding ◌>>=◌
  bind-Keeps m next first second disk bytes mode h =
      go_on-Keeps (m disk).0 next second (m disk).1 bytes mode (first disk bytes mode h)

  -- The rule for a chain, where the second call may go by what the first has returned.
  pub bind_ok-Keeps {ℓ κ} :
      {A : Type ℓ} {B : Type κ} (m : Os A) (next : A → Os B)
      → Keeps m
      → ((a : A) (before after : Disk) → m before ≡ (ok a, after) → Keeps (next a))
      → Keeps (m >>= next)
  unfolding ◌>>=◌
  bind_ok-Keeps {A} m next first second disk bytes mode h = go (m disk).0 refl
    where
      go : (r : Result A) → (m disk).0 ≡ r → HoldsFile bytes mode (go_on r next (m disk).1).1
      go (err e) is_r = first disk bytes mode h
      go (ok a) is_r =
          second a disk (m disk).1 (ap (λ r. (r, (m disk).1)) is_r) (m disk).1 bytes mode
            (first disk bytes mode h)

  pub put-Keeps : (q : FilePath) (e : Entry) → path_eq q p ≡ false → Keeps (change (put q e))
  unfolding change put entry_at
  put-Keeps q e other disk bytes mode h = rw other (entry_at-without q disk other ∙ h)

  pub without-Keeps : (q : FilePath) → path_eq q p ≡ false → Keeps (change (without q))
  unfolding change
  without-Keeps q other disk bytes mode h = entry_at-without q disk other ∙ h

  module _ (machine : Machine) where
    pub call-Keeps :
        (c : Call) (q : FilePath) (operation : String) → Keeps (call machine c q operation)
    unfolding call
    call-Keeps c q operation disk bytes mode h = h

    pub inspect_entry-Keeps :
        (q : FilePath) (operation : String) → Keeps (inspect_entry machine q operation)
    unfolding inspect_entry
    inspect_entry-Keeps q operation =
        bind-Keeps _ _ (call-Keeps _ q operation) (λ u. look_up-Keeps q)
