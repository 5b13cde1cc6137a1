-- ===== src/Manager/Instructions/Apply/Rollback.antt =====
-- `apply` where the receipt cannot be written.
use kaleidoscope_sdk.Prelude.{ℕ, ◌≡◌, refl, sym, ap, ◌∙◌, true, false, Option, some, none}
use kaleidoscope_sdk.JsonSpan.Value.{Bytes}
use kaleidoscope_sdk.Manager.Error.{Result, ManagerError, ok, err, concurrent_edit}
use kaleidoscope_sdk.Manager.Files.Paths.{FilePath}
use kaleidoscope_sdk.Manager.Files.Os
use kaleidoscope_sdk.Manager.Files.Os.{
  Disk, Entry, file, flush, entry_at, put, without, Os, Machine, mode_of, lift, pure, attempt,
  change, call, go_on, ◌>>=◌, ◌>>◌,
}
use kaleidoscope_sdk.Manager.Files.Snapshots.{
  Snapshot, snapshot_eq, snapshot_of, write, read_snapshot, atomic_write, restore_snapshot,
}
use kaleidoscope_sdk.Manager.Files.Frame.{path_eq_self}
use kaleidoscope_sdk.Manager.Files.Reads.{
  compared, assert_unchanged-eq, read_snapshot-file, snapshot_eq_self, snapshot_eq-mode,
}
use kaleidoscope_sdk.Manager.Instructions.{InstructionPlan, Parts, max_instruction_bytes}
use kaleidoscope_sdk.Manager.Instructions.Apply.{
  file_mode, snapshot_after, write_target, restore_if, settle,
}

same_snapshot : (now expected : Snapshot) → now ≡ expected → compared (ok now) expected ≡ ok tt
same_snapshot now expected same = rw same (rw (snapshot_eq_self expected) refl)

other_snapshot :
    (now expected : Snapshot)
    → snapshot_eq now expected ≡ false
    → compared (ok now) expected ≡ err concurrent_edit
other_snapshot now expected other = rw other refl

module _ (machine : Machine) (parts : Parts) (plan : InstructionPlan) where
  published :
      (path : FilePath) (entry : Entry) (disk after : Disk) {u : Unit {0}} {written : Disk}
      → change (put path entry) disk ≡ (ok u, after)
      → call machine flush path "sync directory" after ≡ (ok tt, written)
      → entry_at path written ≡ some entry
  unfolding change call put entry_at
  published path entry disk after put_there flushed =
      rw (← ap (λ r. r.1) flushed) (rw (← ap (λ r. r.1) put_there) (rw (path_eq_self path) refl))

  atomic_write-file :
      (path : FilePath) (bytes : Bytes) (mode : Option ℕ) (disk : Disk) {written : Disk}
      → atomic_write machine path bytes mode disk ≡ (ok tt, written)
      → entry_at path written ≡ some (file bytes (mode_of machine mode))
  unfolding atomic_write
  atomic_write-file path bytes mode disk h =
      let (u, d1, e1, h1) = Os.>>=-eq-ok _ _ disk h in
      let (found, d2, e2, h2) = Os.>>=-eq-ok _ _ d1 h1 in
      let (u, d3, e3, h3) = Os.>>=-eq-ok _ _ d2 h2 in
      let (u, d4, e4, h4) = Os.>>=-eq-ok _ _ d3 h3 in
      let (u, d5, e5, h5) = Os.>>=-eq-ok _ _ d4 h4 in
      published path (file bytes (mode_of machine mode)) d4 d5 e5 h5

  abbrev pub read_target : Disk → Result Snapshot
  read_target disk =
      (read_snapshot machine plan.target max_instruction_bytes "agent instruction file" disk).0

  settle-eq :
      (e : ManagerError) (disk : Disk)
      → settle machine parts plan (err e) disk
        ≡ (restore_if machine parts plan
                (compared (read_target disk) (snapshot_after machine plan.write plan.original))
              >> lift (err e))
            disk
  unfolding settle attempt
  settle-eq e disk = Os.>>=-step _ _ disk (
      ap (λ (s : Result (Unit {0}) × Disk). (ok s.0, s.1))
        (assert_unchanged-eq machine plan.target (snapshot_after machine plan.write plan.original) _
          _ disk))

  stays :
      (checked : Result (Unit {0})) (why e : ManagerError) (disk : Disk)
      → checked ≡ err why
      → ◌≡◌ {A = Result (Unit {0}) × Disk}
          ((restore_if machine parts plan checked >> lift (err e)) disk)
          (err e, disk)
  unfolding pure lift ◌>>=◌
  stays checked why e disk failed = rw failed refl

  goes_back :
      (checked : Result (Unit {0})) (e : ManagerError) (disk : Disk)
      → checked ≡ ok tt
      → (restore_if machine parts plan checked >> lift {A = Unit {0}} (err e)) disk
        ≡ (restore_snapshot machine plan.target plan.original >> lift {A = Unit {0}} (err e)) disk
  goes_back checked e disk fine = rw fine refl

  -- What can be read of a target that has just been written.
  read_written :
      (bytes : Bytes) (mode : Option ℕ) (disk : Disk) {written : Disk} {now : Snapshot}
      → atomic_write machine plan.target bytes mode disk ≡ (ok tt, written)
      → read_target written ≡ ok now
      → now ≡ snapshot_of machine bytes (mode_of machine mode)
  read_written bytes mode disk {written} wrote read =
      read_snapshot-file machine plan.target max_instruction_bytes "agent instruction file" bytes _
        written (atomic_write-file plan.target bytes mode disk wrote)
        (ap
          (λ r. (
            r,
            (read_snapshot machine plan.target max_instruction_bytes "agent instruction file"
                written).1,
          ))
          read)

  new_mode :
      machine.has_modes ≡ true
      → plan.original.unix_mode ≡ none
      → mode_of machine (file_mode plan.original.unix_mode) ≡ some 0x180
  unfolding mode_of
  new_mode modes new = rw (new, modes) refl

  module _ (bytes : Bytes) (is_write : plan.write ≡ write bytes) (e : ManagerError) (disk : Disk)
      {written : Disk}
      (wrote : write_target machine plan.target plan.original plan.write disk
        ≡ (ok tt, written)) where
    wrote_bytes :
        atomic_write machine plan.target bytes (file_mode plan.original.unix_mode) disk
        ≡ (ok tt, written)
    unfolding write_target
    wrote_bytes =
        ap (λ w. write_target machine plan.target plan.original w disk) (sym is_write) ∙ wrote

    -- The last step of `apply`, where the receipt of a target that was just written cannot be written. Where
    -- the target can be read, and has the mode that it had before, and the calls that put it back succeed,
    -- the target has its bytes and its mode from before again, and the failure of the receipt is reported.
    pub settle-restores :
        {now : Snapshot} (old : Bytes) {after : Disk}
        → plan.original.bytes ≡ some old
        → mode_of machine (file_mode plan.original.unix_mode) ≡ plan.original.unix_mode
        → read_target written ≡ ok now
        → restore_snapshot machine plan.target plan.original written ≡ (ok tt, after)
        → ◌≡◌ {A = Result (Unit {0}) × Disk}
            (settle machine parts plan (err e) written)
            (err e, after)
          × (entry_at plan.target after ≡ some (file old (mode_of machine plan.original.unix_mode)))
    unfolding snapshot_of snapshot_after restore_snapshot lift
    settle-restores {now} old {after} there same_mode read put_back =
        let was_written : now ≡ snapshot_of machine bytes plan.original.unix_mode =
          read_written bytes _ disk wrote_bytes read ∙ ap (snapshot_of machine bytes) same_mode in
        let expected : snapshot_after machine plan.write plan.original
            ≡ snapshot_of machine bytes plan.original.unix_mode =
          ap (λ w. snapshot_after machine w plan.original) is_write in
        (
          settle-eq e written
              ∙ goes_back _ e written (
                  ap (λ r. compared r (snapshot_after machine plan.write plan.original)) read
                  ∙ same_snapshot now _ (was_written ∙ sym expected))
              ∙ Os.>>=-step _ _ written put_back,
          atomic_write-file plan.target old plan.original.unix_mode written (rw there at put_back),
        )

    -- Where the target is new, and files have modes, it is not put back: the file that was just written
    -- stays, without a receipt.
    pub settle-new_file :
        machine.has_modes ≡ true
        → plan.original.unix_mode ≡ none
        → ◌≡◌ {A = Result (Unit {0}) × Disk}
            (settle machine parts plan (err e) written)
            (err e, written)
    unfolding snapshot_of mode_of snapshot_after
    settle-new_file modes new = settle-eq e written ∙ differs (read_target written) refl
      where
        differs :
            (r : Result Snapshot)
            → read_target written ≡ r
            → ◌≡◌ {A = Result (Unit {0}) × Disk}
                ((restore_if machine parts plan (
                      compared
                        (read_target written)
                        (snapshot_after machine plan.write plan.original))
                    >> lift (err e))
                  written)
                (err e, written)
        differs (err why) read =
            stays _ why e written
              (ap (λ r. compared r (snapshot_after machine plan.write plan.original)) read)
        differs (ok now) read = stays _ concurrent_edit e written (
            ap (λ r. compared r (snapshot_after machine plan.write plan.original)) read
            ∙ other_snapshot now _ (
                snapshot_eq-mode now _ 0x180
                  (ap (λ (s : Snapshot). s.unix_mode) (read_written bytes _ disk wrote_bytes read)
                    ∙ new_mode modes new)
                  (ap (λ w. (snapshot_after machine w plan.original).unix_mode) is_write ∙ new)))
