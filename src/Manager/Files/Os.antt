-- ===== src/Manager/Files/Os.antt =====
-- The calls of src/fs_safe.rs on the file system, each of which can fail.
use kaleidoscope_sdk.Prelude.{
  ◌≡◌, refl, ap, if◌then◌else◌, Text, ℕ, String, Bool, Option, none, some, List, [], ◌∷◌,
}
use kaleidoscope_sdk.JsonSpan.Value.{Bytes}
use kaleidoscope_sdk.Manager.Error.{ErrorKind, Result, ok, err, io}
use kaleidoscope_sdk.Manager.Files.Paths.{FilePath, path_eq}

pub data Entry : Type 0 where
  file : Bytes → Option ℕ → Entry
  directory link : Entry

abbrev pub Disk : Type 0
Disk = List (FilePath × Entry)

unfoldable pub entry_at : FilePath → Disk → Option Entry
entry_at path [] = none
entry_at path ((p, e) ∷ disk) = if path_eq p path then some e else entry_at path disk

unfoldable pub without : FilePath → Disk → Disk
without path [] = []
without path ((p, e) ∷ disk) =
    let rest = without path disk in if path_eq p path then rest else (p, e) ∷ rest

unfoldable pub put : FilePath → Entry → Disk → Disk
unfolding without
put path e disk = (path, e) ∷ without path disk

-- The calls that can fail. `publish` is all of the writing of a file up to the rename that puts it in
-- its place, `flush` what follows.
pub data Call : Type 0 where
  inspect read create_directory set_mode create_lock write_lock publish flush unlink : Call

pub record Machine : Type 0 where
  pub fails : Call → FilePath → Disk → Option ErrorKind
  pub digest_bytes : Bytes → Text
  pub is_utf8 : Bytes → Bool
  pub has_modes : Bool

abbrev pub Os {ℓ} : Type ℓ → Type ℓ
Os A = Disk → Result A × Disk

module _ {ℓ} {A : Type ℓ} where
  unfoldable pub pure : A → Os A
  pure a disk = (ok a, disk)

  unfoldable pub lift : Result A → Os A
  lift r disk = (r, disk)

  -- The outcome as a value.
  unfoldable pub attempt : Os A → Os (Result A)
  attempt m disk = let (r, disk') = m disk in (ok r, disk')

module _ {ℓ κ} {A : Type ℓ} {B : Type κ} where
  abbrev pub go_on : Result A → (A → Os B) → Os B
  go_on (err e) next disk = (err e, disk)
  go_on (ok a) next disk = next a disk

  go_on-eq-ok :
      (r : Result A) (next : A → Os B) (disk : Disk) {b : B} {disk' : Disk}
      → go_on r next disk ≡ (ok b, disk')
      → (a : A) × (between : Disk) × ◌≡◌ {A = Result A × Disk} (r, disk) (ok a, between)
        × (next a between ≡ (ok b, disk'))
  go_on-eq-ok (err e) next disk h = cc
  go_on-eq-ok (ok a) next disk h = (a, disk, refl, h)

infixl 5 ◌>>=◌ ◌>>◌
unfoldable pub ◌>>=◌ {ℓ κ} : {A : Type ℓ} {B : Type κ} → Os A → (A → Os B) → Os B
◌>>=◌ m next disk = let (r, disk') = m disk in go_on r next disk'

abbrev pub ◌>>◌ {κ} : {B : Type κ} → Os (Unit {0}) → Os B → Os B
first >> rest = first >>= λ _. rest

-- One step of a chain.
module _ {ℓ κ} {A : Type ℓ} {B : Type κ} where
  pub >>=-step :
      (m : Os A) (next : A → Os B) (disk : Disk) {r : Result A} {disk' : Disk}
      → m disk ≡ (r, disk')
      → (m >>= next) disk ≡ go_on r next disk'
  unfolding ◌>>=◌
  >>=-step m next disk h = ap (λ s. go_on s.0 next s.1) h

pub lift-eq-ok {ℓ} :
    {A : Type ℓ} (r : Result A) (disk : Disk) {a : A} {disk' : Disk}
    → lift r disk ≡ (ok a, disk')
    → r ≡ ok a
unfolding lift
lift-eq-ok r disk h = ap (λ s. s.0) h

-- What a chain of calls that succeeds has gone through.
pub >>=-eq-ok {ℓ κ} :
    {A : Type ℓ} {B : Type κ} (m : Os A) (next : A → Os B) (disk : Disk) {b : B} {disk' : Disk}
    → (m >>= next) disk ≡ (ok b, disk')
    → (a : A) × (between : Disk) × (m disk ≡ (ok a, between)) × (next a between ≡ (ok b, disk'))
unfolding ◌>>=◌
>>=-eq-ok m next disk h = go_on-eq-ok (m disk).0 next (m disk).1 h

unfoldable pub look_up : FilePath → Os (Option Entry)
look_up path disk = (ok (entry_at path disk), disk)

unfoldable pub change : (Disk → Disk) → Os (Unit {0})
change f disk = (ok tt, f disk)

module _ (machine : Machine) where
  abbrev reported : String → Option ErrorKind → Result (Unit {0})
  reported operation none = ok tt
  reported operation (some kind) = err (io operation kind)

  -- One call, which changes nothing; `ManagerError::io` if it fails.
  unfoldable pub call : Call → FilePath → String → Os (Unit {0})
  call c path operation disk = (reported operation (machine.fails c path disk), disk)

  -- `fs::symlink_metadata`, where a missing entry is no failure.
  unfoldable pub inspect_entry : FilePath → String → Os (Option Entry)
  inspect_entry path operation = do call inspect path operation; look_up path

  -- The mode that a file is given.
  unfoldable pub mode_of : Option ℕ → Option ℕ
  mode_of mode = if machine.has_modes then some (elim mode [ none ↦ 0x180 | some m ↦ m ]) else none
