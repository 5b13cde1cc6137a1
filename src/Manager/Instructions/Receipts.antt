-- ===== src/Manager/Instructions/Receipts.antt =====
-- src/instructions.rs: the owner receipt, and a plan that changes nothing.
use kaleidoscope_sdk.Prelude.{
  ◌==◌, if◌then◌else◌, bytes_eq, Text, codes, starts_with, Bool, true, false, not, ◌&&◌, ◌||◌,
  Option, none, some, [], ◌++◌, ends_with,
}
use kaleidoscope_sdk.Manager.Error.{
  Result, ok, err, invalid_host_config, invalid_owner_receipt, refuse_if, ◌>>◌,
}
use kaleidoscope_sdk.Manager.Files.Paths.{FilePath}
use kaleidoscope_sdk.Manager.Files.Os.{Machine}
use kaleidoscope_sdk.Manager.Files.Snapshots.{Snapshot, leave}
use kaleidoscope_sdk.Manager.Host.{Host}
use kaleidoscope_sdk.Manager.Instructions.{
  InstructionTarget, is_whole_file, InstructionAction, InstructionReceipt, InstructionPlan, Parts,
  owner_name, receipt_version, marker_start, marker_end, target_eq,
}

-- What a planner has read: the target and the receipt, and the paths.
pub record Site : Type 0 where
  pub target_kind : InstructionTarget
  pub host : Option Host
  pub target : FilePath
  pub receipt_path : FilePath
  pub backup_path : FilePath
  pub original : Snapshot
  pub receipt_original : Snapshot

abbrev pub is_none_or_other : Option Text → Text → Bool
is_none_or_other none expected = true
is_none_or_other (some t) expected = not (bytes_eq t expected)

-- `current.as_deref() == Some(expected)`
abbrev pub is_text : Option Text → Text → Bool
is_text found expected = not (is_none_or_other found expected)

-- `old_receipt.is_some_and(|receipt| receipt.owned_block == block)`
abbrev pub owns : Option InstructionReceipt → Text → Bool
owns none block = false
owns (some receipt) block = bytes_eq receipt.owned_block block

abbrev pub or_text : Option Text → Text
or_text none = []
or_text (some t) = t

-- A plan that changes nothing yet.
abbrev pub plan_at : Site → InstructionAction → InstructionPlan
plan_at site action = record {
  target_kind = site.target_kind;
  host = site.host;
  action = action;
  target = site.target;
  receipt_path = site.receipt_path;
  backup_path = site.backup_path;
  restore = none;
  discarded = none;
  adopted = false;
  original = site.original;
  receipt_original = site.receipt_original;
  write = leave;
  receipt_after = none;
  remove_backup = false;
}

-- `noop_plan`
unfoldable pub noop_plan : Site → InstructionAction → InstructionPlan
noop_plan site action = plan_at site action

module _ (machine : Machine) where
  -- `InstructionReceipt::validate`
  unfoldable pub validate_receipt : InstructionTarget → InstructionReceipt → Result (Unit {0})
  validate_receipt target receipt = do
    refuse_if
        (not (receipt.version == receipt_version)
          || not (bytes_eq receipt.owner owner_name)
          || not (target_eq receipt.target target)
          || not (bytes_eq receipt.owned_sha256 (machine.digest_bytes receipt.owned_block)))
        invalid_owner_receipt
    refuse_if
        (not (is_whole_file receipt.shape)
          && (not (starts_with receipt.owned_block (marker_start target))
              || not (ends_with receipt.owned_block (marker_end target ++ codes "\n"))))
        invalid_owner_receipt

  -- `decode_receipt`
  unfoldable pub decode_receipt :
      Parts → Snapshot → InstructionTarget → Result (Option InstructionReceipt)
  unfolding validate_receipt
  decode_receipt parts snapshot target = elim snapshot.bytes [
    | none ↦ ok none
    | some bytes ↦ elim (parts.from_slice bytes) [
      | none ↦ err invalid_owner_receipt
      | some receipt ↦ validate_receipt target receipt >> ok (some receipt)
    ]
  ]

  -- `snapshot_text`
  unfoldable pub snapshot_text : Snapshot → Result Text
  snapshot_text snapshot =
      let text = or_text snapshot.bytes in
      if machine.is_utf8 text
      then ok text
      else err (invalid_host_config "agent instruction file is not UTF-8")
