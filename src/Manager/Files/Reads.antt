-- ===== src/Manager/Files/Reads.antt =====
-- Reading changes nothing, and reads what is there.
use kaleidoscope_sdk.Prelude.{
  ℕ, ◌≡◌, refl, sym, ap, ◌∙◌, true, false, not, Option, some, none, String, arith, bytes_eq_self,
}
use kaleidoscope_sdk.JsonSpan.Value.{Bytes}
use kaleidoscope_sdk.Manager.Error.{Result, ok, err, concurrent_edit, refuse_if, ok-injective}
use kaleidoscope_sdk.Manager.Files.Paths.{FilePath}
use kaleidoscope_sdk.Manager.Files.Os
use kaleidoscope_sdk.Manager.Files.Os.{
  Disk, Entry, file, directory, link, entry_at, Os, Machine, Call, pure, lift, call, look_up,
  inspect_entry, go_on, ◌>>=◌, ◌>>◌,
}
use kaleidoscope_sdk.Manager.Files.Snapshots.{
  Snapshot, option_bytes_eq, option_mode_eq, snapshot_eq, snapshot_of, read_entry, read_snapshot,
  assert_unchanged,
}

-- A call that only reads.
abbrev pub Reads {ℓ} : {A : Type ℓ} → Os A → Type 0
Reads m = (disk : Disk) → (m disk).1 ≡ disk

go_on-Reads {ℓ κ} :
    {A : Type ℓ} {B : Type κ} (r : Result A) (next : A → Os B) (disk : Disk)
    → ((a : A) → Reads (next a))
    → (go_on r next disk).1 ≡ disk
go_on-Reads (err e) next disk reads = refl
go_on-Reads (ok a) next disk reads = reads a disk

bind-Reads {ℓ κ} :
    {A : Type ℓ} {B : Type κ} (m : Os A) (next : A → Os B)
    → Reads m
    → ((a : A) → Reads (next a))
    → Reads (m >>= next)
unfolding ◌>>=◌
bind-Reads m next first second disk = go_on-Reads (m disk).0 next (m disk).1 second ∙ first disk

lift-Reads {ℓ} : {A : Type ℓ} (r : Result A) → Reads (lift r)
unfolding lift
lift-Reads r disk = refl

pure-Reads {ℓ} : {A : Type ℓ} (a : A) → Reads (pure a)
unfolding pure
pure-Reads a disk = refl

abbrev pub compared : Result Snapshot → Snapshot → Result (Unit {0})
compared (err e) expected = err e
compared (ok now) expected = refuse_if (not (snapshot_eq now expected)) concurrent_edit

compared-eq :
    (now : Result Snapshot) (expected : Snapshot) (disk : Disk)
    → go_on now (λ s. lift (refuse_if (not (snapshot_eq s expected)) concurrent_edit)) disk
      ≡ (compared now expected, disk)
unfolding lift
compared-eq (err e) expected disk = refl
compared-eq (ok now) expected disk = refl

module _ (machine : Machine) where
  call-Reads : (c : Call) (q : FilePath) (operation : String) → Reads (call machine c q operation)
  unfolding call
  call-Reads c q operation disk = refl

  inspect_entry-Reads :
      (q : FilePath) (operation : String) → Reads (inspect_entry machine q operation)
  unfolding inspect_entry look_up
  inspect_entry-Reads q operation = bind-Reads _ _ (call-Reads _ q operation) (λ u disk. refl)

  read_entry-Reads :
      (q : FilePath) (maximum : ℕ) (target : String) (found : Option Entry)
      → Reads (read_entry machine q maximum target found)
  unfolding read_entry
  read_entry-Reads q maximum target none = pure-Reads _
  read_entry-Reads q maximum target (some link) = lift-Reads _
  read_entry-Reads q maximum target (some directory) = lift-Reads _
  read_entry-Reads q maximum target (some (file b m)) =
      bind-Reads _ _ (lift-Reads _) (λ u. bind-Reads _ _ (call-Reads _ q _) (λ v. pure-Reads _))

  pub read_snapshot-Reads :
      (q : FilePath) (maximum : ℕ) (target : String)
      → Reads (read_snapshot machine q maximum target)
  unfolding read_snapshot
  read_snapshot-Reads q maximum target = bind-Reads _ _ (lift-Reads _) (λ u.
      bind-Reads _ _ (inspect_entry-Reads q _) (λ found. read_entry-Reads q maximum target found))

  pub assert_unchanged-Reads :
      (q : FilePath) (expected : Snapshot) (maximum : ℕ) (target : String)
      → Reads (assert_unchanged machine q expected maximum target)
  unfolding assert_unchanged
  assert_unchanged-Reads q expected maximum target =
      bind-Reads _ _ (read_snapshot-Reads q maximum target) (λ now. lift-Reads _)

  read_entry-file :
      (q : FilePath) (maximum : ℕ) (target : String) (bytes : Bytes) (mode : Option ℕ) (disk : Disk)
      {now : Snapshot} {disk' : Disk}
      → read_entry machine q maximum target (some (file bytes mode)) disk ≡ (ok now, disk')
      → now ≡ snapshot_of machine bytes mode
  unfolding read_entry pure
  read_entry-file q maximum target bytes mode disk h =
      let (u, d1, e1, h1) = Os.>>=-eq-ok _ _ disk h in
      let (u, d2, e2, h2) = Os.>>=-eq-ok _ _ d1 h1 in sym (ok-injective (ap (λ r. r.0) h2))

  read_file :
      (q : FilePath) (maximum : ℕ) (target : String) (bytes : Bytes) (mode : Option ℕ) (disk : Disk)
      (found : Option Entry) {now : Snapshot} {disk' : Disk}
      → found ≡ some (file bytes mode)
      → read_entry machine q maximum target found disk ≡ (ok now, disk')
      → now ≡ snapshot_of machine bytes mode
  read_file q maximum target bytes mode disk found is_file h =
      read_entry-file q maximum target bytes mode disk (rw is_file at h)

  inspect_entry-found :
      (q : FilePath) (operation : String) (disk : Disk) {found : Option Entry} {disk' : Disk}
      → inspect_entry machine q operation disk ≡ (ok found, disk')
      → found ≡ entry_at q disk
  unfolding inspect_entry look_up
  inspect_entry-found q operation disk h =
      let (u, d1, e1, h1) = Os.>>=-eq-ok _ _ disk h in
      sym (ok-injective (ap (λ r. r.0) h1))
      ∙ ap (entry_at q) (sym (ap (λ r. r.1) e1) ∙ call-Reads _ q operation disk)

  -- A file that can be read gives its bytes and its mode.
  pub read_snapshot-file :
      (q : FilePath) (maximum : ℕ) (target : String) (bytes : Bytes) (mode : Option ℕ) (disk : Disk)
      {now : Snapshot} {disk' : Disk}
      → entry_at q disk ≡ some (file bytes mode)
      → read_snapshot machine q maximum target disk ≡ (ok now, disk')
      → now ≡ snapshot_of machine bytes mode
  unfolding read_snapshot
  read_snapshot-file q maximum target bytes mode disk {now} {disk'} there h =
      let (u, d1, e1, h1) = Os.>>=-eq-ok _ _ disk h in
      let (found, d2, e2, h2) = Os.>>=-eq-ok _ _ d1 h1 in
      let same : d1 ≡ disk = sym (ap (λ r. r.1) e1) ∙ lift-Reads _ disk in
      read_file q maximum target bytes mode d2 found
        (inspect_entry-found q _ d1 e2 ∙ ap (entry_at q) same ∙ there) h2

  -- What a check of a snapshot answers, by what can be read.
  pub assert_unchanged-eq :
      (q : FilePath) (expected : Snapshot) (maximum : ℕ) (target : String) (disk : Disk)
      → assert_unchanged machine q expected maximum target disk
        ≡ (compared (read_snapshot machine q maximum target disk).0 expected, disk)
  unfolding assert_unchanged ◌>>=◌ lift
  assert_unchanged-eq q expected maximum target disk =
      compared-eq (read_snapshot machine q maximum target disk).0 expected _
      ∙ ap (λ d. (compared (read_snapshot machine q maximum target disk).0 expected, d))
          (read_snapshot-Reads q maximum target disk)

option_bytes_eq_self : (o : Option Bytes) → option_bytes_eq o o ≡ true
option_bytes_eq_self none = refl
option_bytes_eq_self (some bytes) = bytes_eq_self bytes

option_mode_eq_self : (o : Option ℕ) → option_mode_eq o o ≡ true
option_mode_eq_self none = refl
option_mode_eq_self (some mode) = ground arith

pub snapshot_eq_self : (s : Snapshot) → snapshot_eq s s ≡ true
unfolding snapshot_eq
snapshot_eq_self s =
    rw (option_bytes_eq_self s.bytes, bytes_eq_self s.sha256, option_mode_eq_self s.unix_mode) refl

-- Snapshots of a file with a mode and of one without differ.
pub snapshot_eq-mode :
    (a b : Snapshot) (mode : ℕ)
    → a.unix_mode ≡ some mode
    → b.unix_mode ≡ none
    → snapshot_eq a b ≡ false
unfolding snapshot_eq
snapshot_eq-mode a b mode with_mode without_mode = ground arith
