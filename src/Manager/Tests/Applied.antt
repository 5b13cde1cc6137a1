-- ===== src/Manager/Tests/Applied.antt =====
-- Removing and applying, on the small project.
use kaleidoscope_sdk.Prelude.{
  strip_suffix, ends_with, matches_from, bytes_eq, ℕ, ◌≡◌, refl, sym, ap, ◌∙◌, true, false, [], ◌∷◌,
  ◌++◌, Text, codes, Option, some, none, starts_with,
}
use kaleidoscope_sdk.JsonSpan.Value.{Bytes}
use kaleidoscope_sdk.Manager.Error.{Result, ManagerError, ok, err, ok-injective, io, other_kind}
use kaleidoscope_sdk.Manager.Files.Paths.{validate_absolute_path, FilePath, path_eq, sibling_path}
use kaleidoscope_sdk.Manager.Files.Os.{
  put, change, pure, look_up, call, inspect_entry, ◌>>=◌, Disk, file, directory, entry_at, lift,
  mode_of,
}
use kaleidoscope_sdk.Manager.Files.Keeps.{IsNotBeside}
use kaleidoscope_sdk.Manager.Files.Snapshots.{
  ensure_parent_directory, atomic_write, Snapshot, write, absent, snapshot_of, snapshot_eq,
  read_snapshot, restore_snapshot,
}
use kaleidoscope_sdk.Manager.Files.Locks.{acquire}
use kaleidoscope_sdk.Manager.Instructions.{
  instruction_path, Parts, agents, InstructionPlan, InstructionReceipt, update, marker_start,
  marker_end, owned_shape, max_instruction_bytes,
}
use kaleidoscope_sdk.Manager.Instructions.Receipts.{snapshot_text, Site, noop_plan, decode_receipt}
use kaleidoscope_sdk.Manager.Instructions.Blocks.{
  validate_ownership, find_owned_block, install_block, current_owned,
}
use kaleidoscope_sdk.Manager.Instructions.Install.{installed_receipt, install_plan}
use kaleidoscope_sdk.Manager.Instructions.Install.Written.{receipt_for}
use kaleidoscope_sdk.Manager.Instructions.Apply.{
  site_of, plan_remove_at, read_backup, remove_owned, settle, apply, write_target, file_mode,
  is_noop,
}
use kaleidoscope_sdk.Manager.Instructions.Apply.Undoes.{Removal}
use kaleidoscope_sdk.Manager.Instructions.Apply.RoundTrip.{
  IsExact, site_after, plan_remove_at-install_plan,
}
use kaleidoscope_sdk.Manager.Instructions.Apply.Keeps.{IsForeign, apply-Keeps}
use kaleidoscope_sdk.Manager.Instructions.Apply.Rollback.{
  settle-restores, settle-new_file, read_target,
}
use kaleidoscope_sdk.Manager.Instructions.Apply.Unlocks.{apply-unlocked}
use kaleidoscope_sdk.Manager.Tests.{
  machine, parts, block, kind_text, path_to, site, value_of, installed, installed-write,
  kind_and_block,
}

abbrev the_receipt : InstructionReceipt
the_receipt = receipt_for machine parts (site kind_text) kind_and_block none (codes "\n")

abbrev installed_now : Snapshot
installed_now = snapshot_of machine kind_and_block (some 0x1A4)

abbrev site_now : Site
site_now = site_after (site kind_text) installed_now (absent machine)

-- The disk after the installation, with its backup.
abbrev disk_now : Disk
disk_now =
    (path_to (codes "AGENTS.md"), file kind_and_block (some 0x1A4))
    ∷ (path_to (codes "AGENTS.md.kaleidoscope-backup"), file kind_text (some 0x180))
    ∷ (path_to (codes "README.md"), file (codes "Hello") (some 0x1A4))
    ∷ (record { is_absolute = true; names = codes "project" ∷ [] }, directory)
    ∷ []

abbrev undo : InstructionPlan
undo =
    value_of
      (remove_owned machine parts site_now false kind_and_block (some block) (some the_receipt)
        disk_now).0

installed-receipt : installed.receipt_after ≡ some the_receipt
unfolding install_plan decode_receipt absent snapshot_text current_owned owned_shape
    find_owned_block matches_from snapshot_of starts_with marker_start marker_end validate_ownership
    install_block ends_with strip_suffix
installed-receipt = refl

-- The disk after the installation, with its backup and the receipt, which reads back.
abbrev parts_reading : Parts
parts_reading = record parts { from_slice = λ bytes. some the_receipt }

abbrev receipt_now : Snapshot
receipt_now = snapshot_of machine (codes "{}") (some 0x180)

abbrev disk_with_receipt : Disk
disk_with_receipt =
    (
      path_to (codes "AGENTS.md.kaleidoscope-instruction-owner.json"),
      file (codes "{}") (some 0x180),
    )
    ∷ disk_now

abbrev site_with_receipt : Site
site_with_receipt = site_after (site kind_text) installed_now receipt_now

backup-read :
    read_backup machine parts_reading site_with_receipt disk_with_receipt
    ≡ (ok (snapshot_of machine kind_text (some 0x180)), disk_with_receipt)
unfolding read_snapshot ◌>>=◌ lift validate_absolute_path bytes_eq inspect_entry call look_up
    entry_at path_eq pure
backup-read = refl

fresh : decode_receipt machine parts_reading (absent machine) agents ≡ ok none
unfolding decode_receipt absent
fresh = refl

installed-reading : install_plan machine parts_reading (site kind_text) false ≡ ok installed
unfolding install_plan decode_receipt absent snapshot_text current_owned owned_shape
    find_owned_block matches_from snapshot_of starts_with marker_start marker_end validate_ownership
    install_block
installed-reading = refl

found-site :
    site_of machine agents none
      (record { is_absolute = true; names = codes "project" ∷ [] })
      disk_with_receipt
    ≡ (ok site_with_receipt, disk_with_receipt)
unfolding site_of ◌>>=◌ lift instruction_path sibling_path bytes_eq read_snapshot
    validate_absolute_path inspect_entry call look_up entry_at path_eq pure
found-site = refl

decoded : decode_receipt machine parts_reading receipt_now agents ≡ ok (some the_receipt)
unfolding decode_receipt snapshot_of installed_receipt bytes_eq owned_shape starts_with marker_start
    ends_with strip_suffix marker_end
decoded = refl

found-block :
    current_owned kind_and_block agents (some the_receipt) (owned_shape agents) false
    ≡ ok (some block)
unfolding current_owned owned_shape find_owned_block matches_from starts_with marker_start
    marker_end
found-block = refl

text-read : snapshot_text machine installed_now ≡ ok kind_and_block
unfolding snapshot_text snapshot_of
text-read = refl

backup-kept :
    (old : Bytes)
    → (site kind_text).original.bytes ≡ some old
    → ((snapshot_of machine kind_text (some 0x180)).bytes ≡ some old)
      × ((snapshot_of machine kind_text (some 0x180)).sha256 ≡ (site kind_text).original.sha256)
unfolding snapshot_of
backup-kept old h = (h, refl)

plan_remove_at-install_plan_example :
    (undo : InstructionPlan) × (plan_remove_at machine parts_reading agents none
        (record { is_absolute = true; names = codes "project" ∷ [] })
        false
        disk_with_receipt
      ≡ (ok undo, disk_with_receipt))
    × IsExact (site kind_text).original.bytes undo
plan_remove_at-install_plan_example =
    plan_remove_at-install_plan machine parts_reading none
      (record { is_absolute = true; names = codes "project" ∷ [] }) (site kind_text) false false
      installed kind_and_block the_receipt (some 0x1A4) receipt_now
      (snapshot_of machine kind_text (some 0x180)) disk_with_receipt fresh installed-reading
      installed-write installed-receipt found-site decoded text-read found-block backup-read
      backup-kept

-- The disk before the installation.
abbrev disk_before : Disk
disk_before =
    (path_to (codes "AGENTS.md"), file kind_text (some 0x1A4))
    ∷ (path_to (codes "README.md"), file (codes "Hello") (some 0x1A4))
    ∷ (record { is_absolute = true; names = codes "project" ∷ [] }, directory)
    ∷ []

-- A plan that writes AGENTS.md.
abbrev plan : Option ℕ → InstructionPlan
plan mode = record (noop_plan (site kind_text) update) {
  write = write (codes "Ask.\n");
  original = snapshot_of machine kind_text mode;
}

beside :
    (suffix : Text) (other : Text)
    → path_eq (path_to (codes "AGENTS.md" ++ suffix)) (path_to other) ≡ false
    → IsNotBeside (path_to other) (path_to (codes "AGENTS.md")) suffix
unfolding sibling_path bytes_eq
beside suffix other differs q h =
    ap (λ r. path_eq r (path_to other)) (sym (ok-injective h)) ∙ differs

foreign : IsForeign (plan (some 0x1A4)) (path_to (codes "README.md"))
unfolding path_eq noop_plan bytes_eq
foreign = (
  refl,
  refl,
  refl,
  beside (codes ".kaleidoscope-lock") (codes "README.md") refl,
  beside (codes ".kaleidoscope-backup") (codes "README.md") refl,
)

readme :
    entry_at (path_to (codes "README.md")) disk_before ≡ some (file (codes "Hello") (some 0x1A4))
unfolding entry_at path_eq bytes_eq
readme = refl

apply-Keeps_example :
    entry_at (path_to (codes "README.md")) (apply machine parts (plan (some 0x1A4)) disk_before).1
    ≡ some (file (codes "Hello") (some 0x1A4))
apply-Keeps_example =
    apply-Keeps machine parts (path_to (codes "README.md")) (plan (some 0x1A4)) foreign disk_before
      (codes "Hello") (some 0x1A4) readme

now-read :
    (read_snapshot machine
      (path_to (codes "AGENTS.md"))
      max_instruction_bytes
      "agent instruction file"
      disk_now).0
    ≡ ok installed_now
unfolding read_snapshot ◌>>=◌ lift validate_absolute_path bytes_eq inspect_entry call look_up
    entry_at path_eq pure
now-read = refl

now-differs : snapshot_eq installed_now (plan (some 0x1A4)).original ≡ false
unfolding snapshot_eq snapshot_of bytes_eq
now-differs = refl

abbrev written : Option ℕ → Disk
written mode =
    (write_target machine (path_to (codes "AGENTS.md")) (snapshot_of machine kind_text mode)
      (write (codes "Ask.\n")) disk_before).1

wrote :
    (mode : Option ℕ)
    → write_target machine
        (path_to (codes "AGENTS.md"))
        (snapshot_of machine kind_text mode)
        (write (codes "Ask.\n"))
        disk_before
      ≡ (ok tt, written mode)
unfolding write_target atomic_write ◌>>=◌ ensure_parent_directory lift validate_absolute_path
    bytes_eq pure inspect_entry call look_up entry_at path_eq change
wrote mode = refl

written-read :
    read_target machine parts (plan (some 0x1A4)) (written (some 0x1A4))
    ≡ ok (snapshot_of machine (codes "Ask.\n") (some 0x1A4))
unfolding write_target read_snapshot noop_plan ◌>>=◌ lift validate_absolute_path bytes_eq
    inspect_entry call look_up entry_at atomic_write ensure_parent_directory pure path_eq change put
written-read = refl

same_mode :
    mode_of machine (file_mode (plan (some 0x1A4)).original.unix_mode)
    ≡ (plan (some 0x1A4)).original.unix_mode
unfolding mode_of noop_plan snapshot_of
same_mode = refl

abbrev disk_full : ManagerError
disk_full = io "publish file" other_kind

abbrev put_back_disk : Disk
put_back_disk =
    (restore_snapshot machine (path_to (codes "AGENTS.md"))
      (snapshot_of machine kind_text (some 0x1A4)) (written (some 0x1A4))).1

put_back :
    restore_snapshot machine
      (path_to (codes "AGENTS.md"))
      (snapshot_of machine kind_text (some 0x1A4))
      (written (some 0x1A4))
    ≡ (ok tt, put_back_disk)
unfolding restore_snapshot snapshot_of write_target atomic_write ◌>>=◌ ensure_parent_directory lift
    validate_absolute_path bytes_eq pure inspect_entry call look_up entry_at path_eq change put
put_back = refl

settle-restores_example :
    ◌≡◌ {A = Result (Unit {0}) × Disk}
      (settle machine parts (plan (some 0x1A4)) (err disk_full) (written (some 0x1A4)))
      (err disk_full, put_back_disk)
    × (entry_at (path_to (codes "AGENTS.md")) put_back_disk
        ≡ some (file kind_text (mode_of machine (some 0x1A4))))
unfolding noop_plan snapshot_of
settle-restores_example =
    settle-restores machine parts (plan (some 0x1A4)) (codes "Ask.\n") refl disk_full disk_before
      (wrote (some 0x1A4)) kind_text refl same_mode written-read put_back

settle-new_file_example :
    ◌≡◌ {A = Result (Unit {0}) × Disk}
      (settle machine parts (plan none) (err disk_full) (written none))
      (err disk_full, written none)
unfolding noop_plan snapshot_of
settle-new_file_example =
    settle-new_file machine parts (plan none) (codes "Ask.\n") refl disk_full disk_before
      (wrote none) refl refl

abbrev lock_path : FilePath
lock_path = path_to (codes "AGENTS.md.kaleidoscope-lock")

acquired :
    acquire machine (path_to (codes "AGENTS.md")) disk_before
    ≡ (ok lock_path, (acquire machine (path_to (codes "AGENTS.md")) disk_before).1)
unfolding acquire ◌>>=◌ ensure_parent_directory lift validate_absolute_path bytes_eq pure
    inspect_entry call look_up entry_at path_eq sibling_path change
acquired = refl

-- The disk after the installation, with the lock of another plan for the target.
abbrev locked_now : Disk
locked_now = (acquire machine (path_to (codes "AGENTS.md")) disk_now).1

apply-unlocked_example :
    entry_at lock_path (apply machine parts (plan (some 0x1A4)) disk_before).1 ≡ none
unfolding noop_plan is_noop
apply-unlocked_example =
    apply-unlocked machine parts (plan (some 0x1A4)) lock_path disk_before refl acquired (λ d. refl)
