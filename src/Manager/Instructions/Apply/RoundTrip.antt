-- ===== src/Manager/Instructions/Apply/RoundTrip.antt =====
-- A removal after an installation.
use kaleidoscope_sdk.Prelude.{
  ℕ, ◌≡◌, refl, sym, ap, ◌∙◌, Bool, true, false, not, ◌&&◌, ◌||◌, Option, some, none, Text,
  bytes_eq, bytes_eq_self, Bool-cases, Option-cases, inl, inr, some-injective, arith,
}
use mathlib.Core.Path.{subst}
use kaleidoscope_sdk.JsonSpan.Value.{Bytes}
use kaleidoscope_sdk.Manager.Error.{ok}
use kaleidoscope_sdk.Manager.Host.{Host}
use kaleidoscope_sdk.Manager.Files.Paths.{FilePath}
use kaleidoscope_sdk.Manager.Files.Os
use kaleidoscope_sdk.Manager.Files.Os.{Disk, Machine, lift, pure, go_on}
use kaleidoscope_sdk.Manager.Files.Snapshots.{snapshot_of, Snapshot, TargetWrite, write, remove}
use kaleidoscope_sdk.Manager.Instructions.{
  InstructionTarget, skill, agents, claude, cursor, InstructionPlan, InstructionReceipt, Parts,
  is_whole_file, owned_shape, target_eq, byte_identical,
}
use kaleidoscope_sdk.Manager.Instructions.Receipts.{Site, decode_receipt, snapshot_text}
use kaleidoscope_sdk.Manager.Instructions.Blocks.{validate_ownership, current_owned}
use kaleidoscope_sdk.Manager.Instructions.Install.{install_plan, installed_receipt}
use kaleidoscope_sdk.Manager.Instructions.Install.Written.{receipt_for, install_plan-receipt}
use kaleidoscope_sdk.Manager.Instructions.Removal.{
  backup_is_pre, release_plan, remove_check, exact_plan, remove_tiers,
}
use kaleidoscope_sdk.Manager.Instructions.Apply.{
  site_of, plan_remove_at, read_backup, remove_current, remove_owned,
}

-- The write that brings the bytes back.
abbrev pub restoring : Option Bytes → TargetWrite
restoring none = remove
restoring (some bytes) = write bytes

-- A removal that brings the file back as it was, and takes the receipt and the backup away.
abbrev pub IsExact : Option Bytes → InstructionPlan → Type 0
IsExact original plan =
    (plan.write ≡ restoring original)
    × (plan.restore ≡ some byte_identical)
    × (plan.receipt_after ≡ none)
    × (plan.remove_backup ≡ true)

target_eq_self : (kind : InstructionTarget) → target_eq kind kind ≡ true
target_eq_self skill = refl
target_eq_self agents = refl
target_eq_self claude = refl
target_eq_self cursor = refl

at_original :
    {a b : Option Bytes} (plan : InstructionPlan) → a ≡ b → IsExact a plan → IsExact b plan
at_original plan same = subst (λ o. IsExact o plan) same

-- What is there after an installation: the file with its digest, and the receipt.
abbrev pub site_after : Site → Snapshot → Snapshot → Site
site_after site original receipt_original = record site {
  original = original;
  receipt_original = receipt_original;
}

module _ (machine : Machine) (parts : Parts) (site : Site) (bytes : Bytes) (separator : Text)
    (original receipt_original backup : Snapshot) (force : Bool) where
  abbrev made : InstructionReceipt
  made = receipt_for machine parts site bytes none separator

  abbrev now : Site
  now = site_after site original receipt_original

  abbrev block : Text
  block = parts.canonical_block site.target_kind

  check_made : remove_check machine force made (some block) site.target_kind ≡ ok none
  unfolding remove_check validate_ownership installed_receipt
  check_made = ground (
    arith,
    target_eq_self site.target_kind,
    bytes_eq_self block,
    bytes_eq_self (machine.digest_bytes block),
  )

  tiers_made :
      (text : Text)
      → original.sha256 ≡ machine.digest_bytes bytes
      → (made.file_created || backup_is_pre machine backup made) ≡ true
      → remove_tiers machine now made text block none backup
        ≡ ok (exact_plan machine now made none backup)
  unfolding remove_tiers installed_receipt
  tiers_made text same there = ground (arith, bytes_eq_self (machine.digest_bytes bytes))

  module _ (text : Text) (disk : Disk) (same : original.sha256 ≡ machine.digest_bytes bytes)
      (read : read_backup machine parts now disk ≡ (ok backup, disk)) where
    marked :
        (is_whole_file (owned_shape site.target_kind) && not made.file_created) ≡ false
        → (made.file_created || backup_is_pre machine backup made) ≡ true
        → remove_owned machine parts now force text (some block) (some made) disk
          ≡ (ok (exact_plan machine now made none backup), disk)
    unfolding remove_owned remove_current lift
    marked part there = rw part (
        Os.>>=-step _ _ disk (ap (λ r. (r, disk)) check_made)
        ∙ Os.>>=-step _ _ disk read
        ∙ ap (λ r. (r, disk)) (tiers_made text same there))

    whole :
        (is_whole_file (owned_shape site.target_kind) && not made.file_created) ≡ true
        → remove_owned machine parts now force text (some block) (some made) disk
          ≡ (ok (release_plan machine now made backup), disk)
    unfolding remove_owned pure
    whole is_whole = rw is_whole (Os.>>=-step _ _ disk read)

    created_IsExact :
        site.original.bytes ≡ none → IsExact none (exact_plan machine now made none backup)
    unfolding exact_plan installed_receipt
    created_IsExact missing = (rw missing refl, refl, refl, refl)

    replaced_IsExact :
        (old : Bytes)
        → site.original.bytes ≡ some old
        → backup.bytes ≡ some old
        → IsExact (some old) (exact_plan machine now made none backup)
    unfolding exact_plan installed_receipt
    replaced_IsExact old there kept = (rw (there, kept) refl, refl, refl, refl)

    released_IsExact :
        (old : Bytes)
        → backup.bytes ≡ some old
        → backup.sha256 ≡ site.original.sha256
        → IsExact (some old) (release_plan machine now made backup)
    unfolding release_plan backup_is_pre installed_receipt
    released_IsExact old kept pre =
        let ours : bytes_eq original.sha256 (machine.digest_bytes bytes) ≡ true =
          rw same (bytes_eq_self (machine.digest_bytes bytes)) in
        let before : bytes_eq backup.sha256 site.original.sha256 ≡ true =
          rw pre (bytes_eq_self site.original.sha256) in
        (
          rw (kept, ours, before) refl,
          rw (kept, ours, before) refl,
          rw (kept, ours, before) refl,
          rw (kept, ours, before) refl,
        )

    is_created : site.original.bytes ≡ none → made.file_created ≡ true
    unfolding installed_receipt
    is_created missing = rw missing refl

    is_replaced : (old : Bytes) → site.original.bytes ≡ some old → made.file_created ≡ false
    unfolding installed_receipt
    is_replaced old there = rw there refl

    is_pre :
        (old : Bytes)
        → backup.bytes ≡ some old
        → backup.sha256 ≡ site.original.sha256
        → backup_is_pre machine backup made ≡ true
    unfolding backup_is_pre installed_receipt
    is_pre old kept pre = rw (kept, pre) (bytes_eq_self site.original.sha256)

    undone :
        ((old : Bytes)
          → site.original.bytes ≡ some old
          → (backup.bytes ≡ some old) × (backup.sha256 ≡ site.original.sha256))
        → (undo : InstructionPlan) × (remove_owned machine parts now force text
              (some block)
              (some made)
              disk
            ≡ (ok undo, disk))
          × IsExact site.original.bytes undo
    undone kept = elim (Option-cases site.original.bytes) [
      | inl missing ↦
          let c = is_created missing in
          (
            exact_plan machine now made none backup,
            marked (ground (arith, c)) (ground (arith, c)),
            at_original (exact_plan machine now made none backup) (sym missing)
                (created_IsExact missing),
          )
      | inr (old, there) ↦
          let (b, pre) = kept old there in
          elim (Bool-cases (is_whole_file (owned_shape site.target_kind))) [
            | inl w ↦ (
              release_plan machine now made backup,
              whole (ground (arith, w, is_replaced old there)),
              at_original (release_plan machine now made backup) (sym there)
                  (released_IsExact old b pre),
            )
            | inr m ↦ (
              exact_plan machine now made none backup,
              marked (ground (arith, m)) (ground (arith, is_pre old b pre)),
              at_original (exact_plan machine now made none backup) (sym there)
                  (replaced_IsExact old there b),
            )
          ]
    ]

-- From the receipt and the block on.
remove_owned-install_plan :
    (machine : Machine) (parts : Parts) (site : Site) (forced force : Bool) (plan : InstructionPlan)
    (bytes : Bytes) (receipt : InstructionReceipt) (original receipt_original backup : Snapshot)
    (text : Text) (disk : Disk)
    → decode_receipt machine parts site.receipt_original site.target_kind ≡ ok none
    → install_plan machine parts site forced ≡ ok plan
    → plan.write ≡ write bytes
    → plan.receipt_after ≡ some receipt
    → original.sha256 ≡ machine.digest_bytes bytes
    → read_backup machine parts (site_after site original receipt_original) disk ≡ (ok backup, disk)
    → ((old : Bytes)
        → site.original.bytes ≡ some old
        → (backup.bytes ≡ some old) × (backup.sha256 ≡ site.original.sha256))
    → (undo : InstructionPlan) × (remove_owned machine parts
          (site_after site original receipt_original)
          force
          text
          (some (parts.canonical_block site.target_kind))
          (some receipt)
          disk
        ≡ (ok undo, disk))
      × IsExact site.original.bytes undo
remove_owned-install_plan machine parts site forced force plan bytes receipt original
      receipt_original backup text disk fresh installed is_write is_receipt same read kept =
    let (separator, made_it) =
      install_plan-receipt machine parts site forced is_write fresh installed in
    rw (some-injective (sym is_receipt ∙ made_it)) (
      undone machine parts site bytes separator original receipt_original backup force text disk
        same read kept)

-- A first installation, where no receipt was there, is undone exactly. If the target is then what the
-- installation wrote, the receipt beside it reads as the one that was planned, the backup, where there was
-- a file, is that file, and the text that was written is UTF-8 in which the manager's canonical block is
-- found, then a removal, with `--force` or without, plans to write the bytes from before, or to delete the
-- file where there was none, and to take away the receipt and the backup.
pub plan_remove_at-install_plan :
    (machine : Machine) (parts : Parts) (host : Option Host) (project : FilePath) (site : Site)
    (forced force : Bool) (plan : InstructionPlan) (bytes : Bytes) (receipt : InstructionReceipt)
    (mode : Option ℕ) (receipt_original backup : Snapshot) (disk : Disk)
    → decode_receipt machine parts site.receipt_original site.target_kind ≡ ok none
    → install_plan machine parts site forced ≡ ok plan
    → plan.write ≡ write bytes
    → plan.receipt_after ≡ some receipt
    → site_of machine site.target_kind host project disk
      ≡ (ok (site_after site (snapshot_of machine bytes mode) receipt_original), disk)
    → decode_receipt machine parts receipt_original site.target_kind ≡ ok (some receipt)
    → snapshot_text machine (snapshot_of machine bytes mode) ≡ ok bytes
    → current_owned bytes site.target_kind (some receipt) (owned_shape site.target_kind) force
      ≡ ok (some (parts.canonical_block site.target_kind))
    → read_backup machine parts
        (site_after site (snapshot_of machine bytes mode) receipt_original)
        disk
      ≡ (ok backup, disk)
    → ((old : Bytes)
        → site.original.bytes ≡ some old
        → (backup.bytes ≡ some old) × (backup.sha256 ≡ site.original.sha256))
    → (undo : InstructionPlan) × (plan_remove_at machine parts site.target_kind host project force
          disk
        ≡ (ok undo, disk))
      × IsExact site.original.bytes undo
unfolding plan_remove_at snapshot_of lift
plan_remove_at-install_plan machine parts host project site forced force plan bytes receipt mode
      receipt_original backup disk fresh installed is_write is_receipt at_site decoded text found
      read kept =
    let (undo, removed, exact) =
      remove_owned-install_plan machine parts site forced force plan bytes receipt
        (snapshot_of machine bytes mode) receipt_original backup bytes disk fresh installed is_write
        is_receipt refl read kept in
    (
      undo,
      Os.>>=-step _ _ disk at_site
          ∙ (Os.>>=-step _ _ disk (ap (λ r. (r, disk)) decoded)
              ∙ (Os.>>=-step _ _ disk (ap (λ r. (r, disk)) text)
                  ∙ (Os.>>=-step _ _ disk (ap (λ r. (r, disk)) found) ∙ removed))),
      exact,
    )
