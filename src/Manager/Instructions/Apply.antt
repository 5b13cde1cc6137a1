-- ===== src/Manager/Instructions/Apply.antt =====
-- src/instructions.rs: planning on the disk, and `InstructionPlan::apply`.
pub mod Undoes
pub mod RoundTrip
pub mod Unlocks
pub mod Rollback
pub mod Concurrent
pub mod Keeps
use kaleidoscope_sdk.Prelude.{
  if◌then◌else◌, ℕ, Text, codes, Bool, true, false, not, ◌&&◌, Option, none, some, [], ◌∷◌, ◌++◌,
  is_some,
}
use kaleidoscope_sdk.JsonSpan.Value.{Bytes}
use kaleidoscope_sdk.Manager.Error.{
  Result, ok, err, invalid_host_config, invalid_owner_receipt, host_conflict,
}
use kaleidoscope_sdk.Manager.Files.Paths.{FilePath, sibling_path}
use kaleidoscope_sdk.Manager.Files.Os.{Machine, Os, pure, lift, attempt, ◌>>=◌, ◌>>◌}
use kaleidoscope_sdk.Manager.Files.Snapshots.{
  Snapshot, absent, TargetWrite, write, remove, leave, is_leave, is_remove, read_snapshot,
  assert_unchanged, atomic_write, atomic_remove, restore_snapshot, write_bounded_backup,
}
use kaleidoscope_sdk.Manager.Files.Locks.{acquire, release, prune}
use kaleidoscope_sdk.Manager.Host.{Host}
use kaleidoscope_sdk.Manager.Instructions.{
  InstructionTarget, is_whole_file, InstructionAction, already_installed, already_removed,
  InstructionReceipt, InstructionPlan, Parts, instruction_path, owned_shape, max_instruction_bytes,
  max_receipt_bytes,
}
use kaleidoscope_sdk.Manager.Instructions.Receipts.{Site, decode_receipt, snapshot_text, noop_plan}
use kaleidoscope_sdk.Manager.Instructions.Blocks.{current_owned}
use kaleidoscope_sdk.Manager.Instructions.Install.{install_plan}
use kaleidoscope_sdk.Manager.Instructions.Removal.{release_plan, remove_check, remove_tiers}

-- `is_noop`
unfoldable pub is_noop : InstructionAction → Bool
is_noop already_installed = true
is_noop already_removed = true
is_noop _ = false

abbrev pub file_mode : Option ℕ → Option ℕ
file_mode none = some 0x180
file_mode (some mode) = some mode

module _ (machine : Machine) where
  -- The first lines of both planners.
  unfoldable pub site_of : InstructionTarget → Option Host → FilePath → Os Site
  site_of kind host project = do
    target ← lift (instruction_path kind host project)
    receipt_path ← lift (sibling_path target (codes ".kaleidoscope-instruction-owner.json"))
    backup_path ← lift (sibling_path target (codes ".kaleidoscope-backup"))
    original ← read_snapshot machine target max_instruction_bytes "agent instruction file"
    receipt_original ←
        read_snapshot machine receipt_path max_receipt_bytes "instruction owner receipt"
    pure (record {
      target_kind = kind;
      host = host;
      target = target;
      receipt_path = receipt_path;
      backup_path = backup_path;
      original = original;
      receipt_original = receipt_original;
    })

  -- `snapshot_after`
  unfoldable pub snapshot_after : TargetWrite → Snapshot → Snapshot
  snapshot_after (write bytes) original = record {
    bytes = some bytes;
    sha256 = machine.digest_bytes bytes;
    unix_mode = original.unix_mode;
  }
  snapshot_after remove original = absent machine
  snapshot_after leave original = original

  unfoldable pub write_target : FilePath → Snapshot → TargetWrite → Os (Unit {0})
  write_target target original (write bytes) =
      atomic_write machine target bytes (file_mode original.unix_mode)
  write_target target original remove = atomic_remove machine target
  write_target target original leave = pure tt

module _ (machine : Machine) (parts : Parts) where
  -- `plan_install_at`
  unfoldable pub plan_install_at :
      InstructionTarget → Option Host → FilePath → Bool → Os InstructionPlan
  plan_install_at kind host project force = do
    site ← site_of machine kind host project
    lift (install_plan machine parts site force)

  abbrev pub read_backup : Site → Os Snapshot
  read_backup site =
      read_snapshot machine site.backup_path max_instruction_bytes "instruction backup"

  -- `plan_remove_at`, with a current block and checked.
  unfoldable pub remove_current :
      Site → InstructionReceipt → Text → Option Text → Option Text → Os InstructionPlan
  remove_current site receipt text discarded none =
      lift (err (invalid_host_config "an owner receipt, but no manager marker at all"))
  remove_current site receipt text discarded (some block) = do
    backup ← read_backup site
    lift (remove_tiers machine site receipt text block discarded backup)

  -- `plan_remove_at`, from the receipt on.
  unfoldable pub remove_owned :
      Site → Bool → Text → Option Text → Option InstructionReceipt → Os InstructionPlan
  unfolding remove_current
  remove_owned site force text current none =
      if is_some current
      then lift (err (host_conflict "the instruction marker has no manager owner receipt"))
      else pure (noop_plan site already_removed)
  remove_owned site force text current (some receipt) =
      if is_whole_file (owned_shape site.target_kind) && not receipt.file_created
      then (do backup ← read_backup site; pure (release_plan machine site receipt backup))
      else (do
        discarded ← lift (remove_check machine force receipt current site.target_kind)
        remove_current site receipt text discarded current)

  -- `plan_remove_at`
  unfoldable pub plan_remove_at :
      InstructionTarget → Option Host → FilePath → Bool → Os InstructionPlan
  unfolding remove_owned
  plan_remove_at kind host project force = do
    site ← site_of machine kind host project
    receipt ← lift (decode_receipt machine parts site.receipt_original kind)
    text ← lift (snapshot_text machine site.original)
    current ← lift (current_owned text kind receipt (owned_shape kind) force)
    remove_owned site force text current receipt

  -- `InstructionReceipt::encode`
  unfoldable pub encode : InstructionReceipt → Result Bytes
  encode receipt = elim (parts.to_vec_pretty receipt) [
    | none ↦ err invalid_owner_receipt
    | some bytes ↦ ok (bytes ++ b'\n' ∷ [])
  ]

  -- What is done to the receipt, its encoding aside.
  abbrev pub write_receipt : FilePath → Option Bytes → Os (Unit {0})
  write_receipt path none = atomic_remove machine path
  write_receipt path (some bytes) = atomic_write machine path bytes (some 0x180)

  abbrev encode_after : Option InstructionReceipt → Result (Option Bytes)
  encode_after none = ok none
  encode_after (some receipt) = (elim (encode receipt) [
    | err e ↦ err e
    | ok bytes ↦ ok (some bytes)
  ])

  -- The way back, when the receipt fails: `assert_unchanged(...).is_ok()`, and the restoration.
  abbrev pub restore_if : InstructionPlan → Result (Unit {0}) → Os (Unit {0})
  restore_if plan (err e) = pure tt
  restore_if plan (ok u) = restore_snapshot machine plan.target plan.original

  unfoldable pub settle : InstructionPlan → Result (Unit {0}) → Os (Unit {0})
  settle plan (ok u) =
      if plan.remove_backup then atomic_remove machine plan.backup_path else pure tt
  settle plan (err e) = do
    unchanged ← attempt (
        assert_unchanged machine plan.target (snapshot_after machine plan.write plan.original)
          max_instruction_bytes "agent instruction file")
    restore_if plan unchanged
    lift (err e)

  -- `apply`, while the lock is held.
  unfoldable pub apply_locked : InstructionPlan → Os (Unit {0})
  unfolding settle write_target encode
  apply_locked plan = do
    assert_unchanged machine plan.target plan.original max_instruction_bytes
        "agent instruction file"
    assert_unchanged machine plan.receipt_path plan.receipt_original max_receipt_bytes
        "instruction owner receipt"
    if not (is_some plan.restore) && not (is_leave plan.write)
        then write_bounded_backup machine plan.target plan.original
        else pure tt
    write_target machine plan.target plan.original plan.write
    bytes ← lift (encode_after plan.receipt_after)
    outcome ← attempt (write_receipt plan.receipt_path bytes)
    settle plan outcome

  -- `apply`. On every way out the lock is dropped.
  unfoldable pub apply : InstructionPlan → Os (Unit {0})
  unfolding apply_locked is_noop
  apply plan = if is_noop plan.action then pure tt else (do
    lock ← acquire machine plan.target
    outcome ← attempt (apply_locked plan)
    release machine lock
    lift outcome
    if is_remove plan.write then prune machine plan.target else pure tt)
