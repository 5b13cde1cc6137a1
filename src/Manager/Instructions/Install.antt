-- ===== src/Manager/Instructions/Install.antt =====
-- src/instructions.rs: what an installation plans to do, from what is on the disk.
pub mod Discards
pub mod Disclosed
pub mod Written
use kaleidoscope_sdk.Prelude.{
  is_some, if◌then◌else◌, bytes_eq, Text, is_empty, Bool, true, false, not, ◌&&◌, Option, none,
  some, [], is_blank,
}
use kaleidoscope_sdk.Manager.Error.{Result, ok, err, host_conflict, ◌>>◌, ◌>>=◌}
use kaleidoscope_sdk.Manager.Files.Os.{Machine}
use kaleidoscope_sdk.Manager.Files.Snapshots.{Snapshot, write}
use kaleidoscope_sdk.Manager.Instructions.{
  InstructionTarget, skill, agents, claude, OwnedShape, whole_file, marker_block, is_whole_file,
  add, adopt, update, already_installed, InstructionReceipt, InstructionPlan, Parts, owner_name,
  receipt_version, owned_shape,
}
use kaleidoscope_sdk.Manager.Instructions.Blocks.{current_owned, validate_ownership, install_block}
use kaleidoscope_sdk.Manager.Instructions.Receipts.{
  Site, is_text, owns, decode_receipt, snapshot_text, plan_at, noop_plan,
}

module _ (machine : Machine) (parts : Parts) where
  -- `adopt_plan`
  unfoldable pub adopt_plan : Site → Text → OwnedShape → InstructionPlan
  adopt_plan site desired shape = record (plan_at site adopt) {
    adopted = true;
    receipt_after = some (record {
      version = receipt_version;
      owner = owner_name;
      target = site.target_kind;
      shape = shape;
      owned_sha256 = machine.digest_bytes desired;
      owned_block = desired;
      pre_sha256 = site.original.sha256;
      post_sha256 = site.original.sha256;
      separator = [];
      file_created = false;
      adopted = true;
    });
  }

  -- `adopt_now`
  unfoldable pub adopts : OwnedShape → Option InstructionReceipt → Text → Option Text → Text → Bool
  adopts whole_file old text current desired =
      not (is_some old) && not (is_empty text) && bytes_eq text desired
  adopts marker_block old text current desired = not (is_some old) && is_text current desired

  abbrev pub has_own_file : InstructionTarget → Bool
  has_own_file skill = true
  has_own_file InstructionTarget.cursor = true
  has_own_file agents = false
  has_own_file claude = false

  -- The refusal of content that is not the manager's; with `--force`, what is discarded.
  unfoldable pub unmanaged_content :
      InstructionTarget
      → OwnedShape
      → Bool
      → Option InstructionReceipt
      → Option Text
      → Text
      → Result (Option Text)
  unmanaged_content kind shape force old current text =
      if has_own_file kind && not (is_some old) && not (is_some current) && not (is_blank text)
      then (if not (is_whole_file shape)
          then err (host_conflict "carries no Kaleidoscope marker block")
          else if not force
          then err (host_conflict "its contents differ from the skill this manager installs")
          else ok (some text))
      else ok none

  -- The check of the ownership, or with `--force` what is discarded.
  unfoldable pub install_check :
      Bool
      → Option InstructionReceipt
      → Option Text
      → InstructionTarget
      → Option Text
      → Result (Option Text)
  install_check false old current kind discarded =
      validate_ownership machine.digest_bytes old current kind >> ok discarded
  install_check true old none kind discarded = ok discarded
  install_check true old (some current) kind discarded =
      ok (if owns old current then discarded else some current)

  abbrev created : Option InstructionReceipt → Snapshot → Bool
  created none original = not (is_some original.bytes)
  created (some receipt) original = receipt.file_created

  abbrev pre_digest : Option InstructionReceipt → Snapshot → Text
  pre_digest none original = original.sha256
  pre_digest (some receipt) original = receipt.pre_sha256

  abbrev was_adopted : Option InstructionReceipt → Bool
  was_adopted none = false
  was_adopted (some receipt) = receipt.adopted

  -- The receipt of an installation.
  unfoldable pub installed_receipt :
      Site → Option InstructionReceipt → Text → OwnedShape → Text → Text → InstructionReceipt
  installed_receipt site old desired shape updated separator = record {
    version = receipt_version;
    owner = owner_name;
    target = site.target_kind;
    shape = shape;
    owned_sha256 = machine.digest_bytes desired;
    owned_block = desired;
    pre_sha256 = pre_digest old site.original;
    post_sha256 = machine.digest_bytes updated;
    separator = separator;
    file_created = created old site.original;
    adopted = was_adopted old;
  }

  -- The last part of `plan_install_at`.
  unfoldable pub install_writes :
      Site
      → Option InstructionReceipt
      → Text
      → Option Text
      → Text
      → OwnedShape
      → Option Text
      → Result InstructionPlan
  unfolding installed_receipt
  install_writes site old text current desired shape discarded = do
    (updated, separator) ← install_block text current desired shape
    ok (record (plan_at site (if is_some current then update else add)) {
      discarded = discarded;
      adopted = was_adopted old;
      write = write updated;
      receipt_after = some (installed_receipt site old desired shape updated separator);
    })

  -- `plan_install_at`, behind the adoption.
  unfoldable pub install_unadopted :
      Site
      → Bool
      → Option InstructionReceipt
      → Text
      → Option Text
      → Text
      → OwnedShape
      → Result InstructionPlan
  unfolding unmanaged_content install_check install_writes noop_plan
  install_unadopted site force old text current desired shape = do
    replaced ← unmanaged_content site.target_kind shape force old current text
    discarded ← install_check force old current site.target_kind replaced
    if is_text current desired && owns old desired
        then ok (noop_plan site already_installed)
        else install_writes site old text current desired shape discarded

  -- `plan_install_at`, from what it has read.
  unfoldable pub install_plan : Site → Bool → Result InstructionPlan
  unfolding adopts adopt_plan install_unadopted
  install_plan site force = do
    old ← decode_receipt machine parts site.receipt_original site.target_kind
    text ← snapshot_text machine site.original
    let shape = owned_shape site.target_kind
    let desired = parts.canonical_block site.target_kind
    current ← current_owned text site.target_kind old shape force
    if adopts shape old text current desired
        then ok (adopt_plan site desired shape)
        else install_unadopted site force old text current desired shape
