-- ===== src/Manager/Instructions/Removal.antt =====
-- src/instructions.rs: what a removal plans to do, from what is on the disk.
use kaleidoscope_sdk.Prelude.{
  is_some, if◌then◌else◌, bytes_eq, Text, Bool, true, false, not, ◌&&◌, ◌||◌, Option, none, some,
  is_blank,
}
use kaleidoscope_sdk.JsonSpan.Value.{Bytes}
use kaleidoscope_sdk.Manager.Error.{Result, ok, ◌>>◌, ◌>>=◌}
use kaleidoscope_sdk.Manager.Files.Os.{Machine}
use kaleidoscope_sdk.Manager.Files.Snapshots.{Snapshot, TargetWrite, write, remove, leave}
use kaleidoscope_sdk.Manager.Instructions
use kaleidoscope_sdk.Manager.Instructions.{
  InstructionTarget, skill, agents, claude, OwnedShape, whole_file, marker_block, is_whole_file,
  InstructionAction, add, adopt, update, already_installed, byte_identical, structural,
  adopted_left_in_place, InstructionReceipt, InstructionPlan, Parts, owner_name, receipt_version,
  owned_shape, marker_start, marker_end, target_eq,
}
use kaleidoscope_sdk.Manager.Instructions.Blocks.{validate_ownership, remove_block}
use kaleidoscope_sdk.Manager.Instructions.Receipts.{Site, plan_at}

abbrev pub write_or : TargetWrite → Option Bytes → TargetWrite
write_or other none = other
write_or other (some bytes) = write bytes

module _ (machine : Machine) where
  -- `backup.bytes.is_some_and(|_| backup.sha256 == receipt.pre_sha256)`
  unfoldable pub backup_is_pre : Snapshot → InstructionReceipt → Bool
  backup_is_pre backup receipt = is_some backup.bytes && bytes_eq backup.sha256 receipt.pre_sha256

  abbrev pub removal_at : Site → InstructionReceipt → InstructionPlan
  removal_at site receipt = record (plan_at site Instructions.remove) { adopted = receipt.adopted }

  -- The plan for a whole file that the manager did not create.
  unfoldable pub release_plan : Site → InstructionReceipt → Snapshot → InstructionPlan
  unfolding backup_is_pre
  release_plan site receipt backup =
      if bytes_eq site.original.sha256 receipt.post_sha256 && backup_is_pre backup receipt
      then record (removal_at site receipt) {
        restore = some byte_identical;
        write = write_or leave backup.bytes;
        remove_backup = true;
      }
      else record (removal_at site receipt) { restore = some adopted_left_in_place }

  -- The check of the ownership, or with `--force` what is discarded.
  unfoldable pub remove_check :
      Bool → InstructionReceipt → Option Text → InstructionTarget → Result (Option Text)
  remove_check false receipt current kind =
      validate_ownership machine.digest_bytes (some receipt) current kind >> ok none
  remove_check true receipt none kind = ok none
  remove_check true receipt (some current) kind =
      ok (if bytes_eq receipt.owned_block current then none else some current)

  -- The two tiers of a removal.
  unfoldable pub exact_plan : Site → InstructionReceipt → Option Text → Snapshot → InstructionPlan
  exact_plan site receipt discarded backup = record (removal_at site receipt) {
    restore = some byte_identical;
    discarded = discarded;
    write = if receipt.file_created then remove else write_or remove backup.bytes;
    remove_backup = true;
  }

  unfoldable pub structural_plan :
      Site → InstructionReceipt → Text → Text → Option Text → Result InstructionPlan
  structural_plan site receipt text block discarded = do
    let shape = owned_shape site.target_kind
    removed ← remove_block text block receipt.separator shape
    ok (record (removal_at site receipt) {
      restore = some structural;
      discarded = discarded;
      write =
          if receipt.file_created && is_blank removed
          then remove
          else if is_whole_file shape && not receipt.file_created
          then leave
          else write removed;
    })

  unfoldable pub remove_tiers :
      Site → InstructionReceipt → Text → Text → Option Text → Snapshot → Result InstructionPlan
  unfolding backup_is_pre exact_plan structural_plan
  remove_tiers site receipt text block discarded backup =
      if not receipt.adopted
        && bytes_eq site.original.sha256 receipt.post_sha256
        && (receipt.file_created || backup_is_pre backup receipt)
      then ok (exact_plan site receipt discarded backup)
      else structural_plan site receipt text block discarded
