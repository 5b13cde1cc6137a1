-- ===== src/Manager/Instructions/Install/Written.antt =====
-- The receipt of an installation in a file that had none.
use kaleidoscope_sdk.Prelude.{◌≡◌, sym, ap, ◌∙◌, Bool, Option, some, none, Text}
use kaleidoscope_sdk.JsonSpan.Value.{Bytes}
use kaleidoscope_sdk.Manager.Error.{ok, ok-injective, >>=-eq-ok}
use kaleidoscope_sdk.Manager.Files.Os.{Machine}
use kaleidoscope_sdk.Manager.Files.Snapshots.{write}
use kaleidoscope_sdk.Manager.Instructions.{InstructionPlan, InstructionReceipt, Parts, owned_shape}
use kaleidoscope_sdk.Manager.Instructions.Receipts.{Site, decode_receipt, snapshot_text}
use kaleidoscope_sdk.Manager.Instructions.Blocks.{current_owned}
use kaleidoscope_sdk.Manager.Instructions.Install.{
  unmanaged_content, install_check, install_plan, install_unadopted, installed_receipt,
}
use kaleidoscope_sdk.Manager.Instructions.Install.Disclosed.{
  install_writes-parts, writes_or_noop, adopts_or_writes, write-injective,
}

-- The receipt for bytes that were written.
abbrev pub receipt_for :
    Machine → Parts → Site → Bytes → Option InstructionReceipt → Text → InstructionReceipt
receipt_for machine parts site bytes old separator =
    installed_receipt machine parts site old (parts.canonical_block site.target_kind)
      (owned_shape site.target_kind) bytes separator

module _ (machine : Machine) (parts : Parts) (site : Site) (force : Bool) {plan : InstructionPlan}
    {bytes : Bytes} (is_write : plan.write ≡ write bytes) where
  install_unadopted-receipt :
      (old : Option InstructionReceipt) (text : Text) (current : Option Text)
      → install_unadopted machine parts site force old text current
          (parts.canonical_block site.target_kind)
          (owned_shape site.target_kind)
        ≡ ok plan
      → (separator : Text) × (plan.receipt_after
          ≡ some (receipt_for machine parts site bytes old separator))
  unfolding install_unadopted
  install_unadopted-receipt old text current h =
      let shape = owned_shape site.target_kind in
      let desired = parts.canonical_block site.target_kind in
      let (replaced, managed, h1) =
        >>=-eq-ok (unmanaged_content machine parts site.target_kind shape force old current text) _
          h in
      let (discarded, checked, h2) =
        >>=-eq-ok (install_check machine parts force old current site.target_kind replaced) _ h1 in
      let (b, installed, w1, d1, r1) =
        install_writes-parts machine parts site force old text desired current discarded (
          writes_or_noop machine parts site force old text desired current {bytes = bytes} discarded
            _ h2 is_write) in
      (
        b.1,
        r1
            ∙ ap (λ u. some (installed_receipt machine parts site old desired shape u b.1))
                (write-injective (sym w1 ∙ is_write)),
      )

  pub install_plan-receipt :
      decode_receipt machine parts site.receipt_original site.target_kind ≡ ok none
      → install_plan machine parts site force ≡ ok plan
      → (separator : Text) × (plan.receipt_after
          ≡ some (receipt_for machine parts site bytes none separator))
  unfolding install_plan
  install_plan-receipt fresh h =
      let (old, decoded, h1) =
        >>=-eq-ok (decode_receipt machine parts site.receipt_original site.target_kind) _ h in
      let (text, read, h2) = >>=-eq-ok (snapshot_text machine site.original) _ h1 in
      let (current, found, h3) =
        >>=-eq-ok (current_owned text site.target_kind old (owned_shape site.target_kind) force) _
          h2 in
      let (separator, made) = install_unadopted-receipt old text current (
        adopts_or_writes machine parts site force old text current {bytes = bytes} _ h3 is_write) in
      (
        separator,
        made
            ∙ ap (λ o. some (receipt_for machine parts site bytes o separator))
                (ok-injective (sym decoded ∙ fresh)),
      )
