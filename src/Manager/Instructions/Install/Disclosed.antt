-- ===== src/Manager/Instructions/Install/Disclosed.antt =====
-- What a plan for an installation announces, and what it writes.
use kaleidoscope_sdk.Prelude.{
  none-ne-some, ◌≡◌, refl, sym, ap, ◌∙◌, Bool, true, false, [], Text, arith, if◌then◌else◌, some,
  none, Option,
}
use mathlib.Core.List.{append-nil}
use kaleidoscope_sdk.JsonSpan.Value.{Bytes}
use kaleidoscope_sdk.Manager.Error.{ok, ok-injective, >>=-eq-ok}
use kaleidoscope_sdk.Manager.Files.Os.{Machine}
use kaleidoscope_sdk.Manager.Files.Snapshots.{write, leave}
use kaleidoscope_sdk.Manager.Instructions.{
  InstructionTarget, InstructionReceipt, InstructionPlan, already_installed, Parts, OwnedShape,
  owned_shape,
}
use kaleidoscope_sdk.Manager.Instructions.Receipts.{
  Site, or_text, decode_receipt, snapshot_text, noop_plan,
}
use kaleidoscope_sdk.Manager.Instructions.Blocks.{install_block, current_owned}
use kaleidoscope_sdk.Manager.Instructions.Install.{
  unmanaged_content, install_check, installed_receipt, install_writes, install_unadopted,
  install_plan, adopt_plan,
}
use kaleidoscope_sdk.Manager.Instructions.Install.Discards.{
  Installs, install_block-Installs, checks-Cleared,
}
use kaleidoscope_sdk.Manager.Instructions.Blocks.Found.{Holds, current_owned-Holds}

leave-ne-write : {bytes : Bytes} → leave ≡ write bytes → ⊥
leave-ne-write h = cc

pub write-injective : {a b : Bytes} → write a ≡ write b → a ≡ b
write-injective h = cc

self-Holds : (text : Text) {lost : Text} → text ≡ lost → Holds text lost
self-Holds text {lost} same = ([], [], same ∙ sym (append-nil lost))

check-discarded :
    (machine : Machine) (parts : Parts) (kind : InstructionTarget) (old : Option InstructionReceipt)
    (text : Text) (force : Bool) (shape : OwnedShape) (current replaced : Option Text) {lost : Text}
    → current_owned text kind old shape force ≡ ok current
    → unmanaged_content machine parts kind shape force old current text ≡ ok replaced
    → install_check machine parts force old current kind replaced ≡ ok (some lost)
    → (force ≡ true) × Holds text lost
unfolding unmanaged_content install_check
check-discarded machine parts kind old text false shape current replaced found managed checked =
    absurd (ground arith)
check-discarded machine parts kind old text true shape none replaced found managed checked =
    (refl, self-Holds text (ground arith))
check-discarded machine parts kind old text true shape (some block) replaced {lost} found managed
      checked =
    let same : block ≡ lost = ground arith in
    (refl, rw (← same) (current_owned-Holds text kind old shape true found))

-- From here on, the plan for a site.
module _ (machine : Machine) (parts : Parts) (site : Site) (force : Bool)
    (old : Option InstructionReceipt) (text : Text) (desired : Text) (current : Option Text)
    {plan : InstructionPlan} where
  pub install_writes-parts :
      (discarded : Option Text)
      → install_writes machine parts site old text current desired
          (owned_shape site.target_kind)
          discarded
        ≡ ok plan
      → (b : Text × Text) × (install_block text current desired (owned_shape site.target_kind)
          ≡ ok b)
        × (plan.write ≡ write b.0)
        × (plan.discarded ≡ discarded)
        × (plan.receipt_after
            ≡ some (
                installed_receipt machine parts site old desired
                  (owned_shape site.target_kind)
                  b.0
                  b.1))
  unfolding install_writes
  install_writes-parts discarded h =
      let (b, installed, made) =
        >>=-eq-ok (install_block text current desired (owned_shape site.target_kind)) _ h in
      let is_plan = sym (ok-injective made) in
      (
        b,
        installed,
        ap (λ p. p.write) is_plan,
        ap (λ p. p.discarded) is_plan,
        ap (λ p. p.receipt_after) is_plan,
      )

  pub writes_or_noop :
      {bytes : Bytes} (discarded : Option Text) (unchanged : Bool)
      → (if unchanged
          then ok (noop_plan site already_installed)
          else install_writes machine parts site old text current desired
              (owned_shape site.target_kind)
              discarded)
        ≡ ok plan
      → plan.write ≡ write bytes
      → install_writes machine parts site old text current desired
          (owned_shape site.target_kind)
          discarded
        ≡ ok plan
  unfolding noop_plan
  writes_or_noop discarded false h w = h
  writes_or_noop discarded true h w =
      absurd (leave-ne-write (ap (λ p. p.write) (ok-injective h) ∙ w))

  install_unadopted-Installs :
      {bytes : Bytes}
      → current_owned text site.target_kind old (owned_shape site.target_kind) force ≡ ok current
      → install_unadopted machine parts site force old text current desired
          (owned_shape site.target_kind)
        ≡ ok plan
      → plan.write ≡ write bytes
      → plan.discarded ≡ none
      → Installs (owned_shape site.target_kind) old text desired bytes
  unfolding install_unadopted
  install_unadopted-Installs {bytes} found h w nothing =
      let (replaced, managed, h1) =
        >>=-eq-ok
          (unmanaged_content machine parts site.target_kind (owned_shape site.target_kind) force old
            current text)
          _ h in
      let (discarded, checked, h2) =
        >>=-eq-ok (install_check machine parts force old current site.target_kind replaced) _ h1 in
      let (b, installed, w1, d1, r1) =
        install_writes-parts discarded (writes_or_noop {bytes = bytes} discarded _ h2 w) in
      let checked' = checked ∙ ap ok (sym d1 ∙ nothing) in
      let cleared =
        checks-Cleared machine parts site.target_kind old text force (owned_shape site.target_kind)
          current replaced refl found managed checked' in
      rw (← write-injective (sym w1 ∙ w)) (
        install_block-Installs (owned_shape site.target_kind) old text current desired
          {separator = b.1} cleared installed)

  loses_or_noop :
      {lost : Text} (discarded : Option Text) (unchanged : Bool)
      → (if unchanged
          then ok (noop_plan site already_installed)
          else install_writes machine parts site old text current desired
              (owned_shape site.target_kind)
              discarded)
        ≡ ok plan
      → plan.discarded ≡ some lost
      → discarded ≡ some lost
  unfolding noop_plan
  loses_or_noop discarded false h loses = sym (install_writes-parts discarded h).3 ∙ loses
  loses_or_noop discarded true h loses =
      absurd (none-ne-some (ap (λ p. p.discarded) (ok-injective h) ∙ loses))

  install_unadopted-discarded :
      {lost : Text}
      → current_owned text site.target_kind old (owned_shape site.target_kind) force ≡ ok current
      → install_unadopted machine parts site force old text current desired
          (owned_shape site.target_kind)
        ≡ ok plan
      → plan.discarded ≡ some lost
      → (force ≡ true) × Holds text lost
  unfolding install_unadopted
  install_unadopted-discarded {lost} found h loses =
      let (replaced, managed, h1) =
        >>=-eq-ok
          (unmanaged_content machine parts site.target_kind (owned_shape site.target_kind) force old
            current text)
          _ h in
      let (discarded, checked, h2) =
        >>=-eq-ok (install_check machine parts force old current site.target_kind replaced) _ h1 in
      let lost_here = loses_or_noop discarded _ h2 loses in
      check-discarded machine parts site.target_kind old text force (owned_shape site.target_kind)
        current replaced found managed (checked ∙ ap ok lost_here)

module _ (machine : Machine) (parts : Parts) (site : Site) (force : Bool)
    {plan : InstructionPlan} where
  pub adopts_or_writes :
      (old : Option InstructionReceipt) (text : Text) (current : Option Text) {bytes : Bytes}
      (adopted : Bool)
      → (if adopted
          then ok (
              adopt_plan machine parts site
                (parts.canonical_block site.target_kind)
                (owned_shape site.target_kind))
          else install_unadopted machine parts site force old text current
              (parts.canonical_block site.target_kind)
              (owned_shape site.target_kind))
        ≡ ok plan
      → plan.write ≡ write bytes
      → install_unadopted machine parts site force old text current
          (parts.canonical_block site.target_kind)
          (owned_shape site.target_kind)
        ≡ ok plan
  unfolding adopt_plan
  adopts_or_writes old text current false h w = h
  adopts_or_writes old text current true h w =
      absurd (leave-ne-write (ap (λ p. p.write) (ok-injective h) ∙ w))

  adopts_or_loses :
      (old : Option InstructionReceipt) (text : Text) (current : Option Text) {lost : Text}
      (adopted : Bool)
      → (if adopted
          then ok (
              adopt_plan machine parts site
                (parts.canonical_block site.target_kind)
                (owned_shape site.target_kind))
          else install_unadopted machine parts site force old text current
              (parts.canonical_block site.target_kind)
              (owned_shape site.target_kind))
        ≡ ok plan
      → plan.discarded ≡ some lost
      → install_unadopted machine parts site force old text current
          (parts.canonical_block site.target_kind)
          (owned_shape site.target_kind)
        ≡ ok plan
  unfolding adopt_plan
  adopts_or_loses old text current false h loses = h
  adopts_or_loses old text current true h loses =
      absurd (none-ne-some (ap (λ p. p.discarded) (ok-injective h) ∙ loses))

  -- An installation that announces nothing as discarded changes nothing of the user's. In a file with a
  -- marked block the text stays, and the block is added behind it or put in the place of the block that
  -- the receipt owns. A whole file is written only where it was blank, or was what the receipt owns.
  pub install_plan-Installs :
      {bytes : Bytes}
      → install_plan machine parts site force ≡ ok plan
      → plan.write ≡ write bytes
      → plan.discarded ≡ none
      → (old : Option InstructionReceipt) × (decode_receipt machine parts site.receipt_original
            site.target_kind
          ≡ ok old)
        × Installs
            (owned_shape site.target_kind)
            old
            (or_text site.original.bytes)
            (parts.canonical_block site.target_kind)
            bytes
  unfolding install_plan snapshot_text
  install_plan-Installs {bytes} h w nothing =
      let (old, decoded, h1) =
        >>=-eq-ok (decode_receipt machine parts site.receipt_original site.target_kind) _ h in
      let (text, read, h2) = >>=-eq-ok (snapshot_text machine site.original) _ h1 in
      let (current, found, h3) =
        >>=-eq-ok (current_owned text site.target_kind old (owned_shape site.target_kind) force) _
          h2 in
      let is_text : or_text site.original.bytes ≡ text = ground arith in
      (
        old,
        decoded,
        rw is_text (
            install_unadopted-Installs machine parts site force old text
              (parts.canonical_block site.target_kind) current found
              (adopts_or_writes old text current {bytes = bytes} _ h3 w) w nothing),
      )

  -- What a plan announces as discarded is given up with `--force` only, and is a part of the file.
  pub install_plan-discarded :
      {lost : Text}
      → install_plan machine parts site force ≡ ok plan
      → plan.discarded ≡ some lost
      → (force ≡ true) × Holds (or_text site.original.bytes) lost
  unfolding install_plan snapshot_text
  install_plan-discarded {lost} h loses =
      let (old, decoded, h1) =
        >>=-eq-ok (decode_receipt machine parts site.receipt_original site.target_kind) _ h in
      let (text, read, h2) = >>=-eq-ok (snapshot_text machine site.original) _ h1 in
      let (current, found, h3) =
        >>=-eq-ok (current_owned text site.target_kind old (owned_shape site.target_kind) force) _
          h2 in
      let is_text : or_text site.original.bytes ≡ text = ground arith in
      rw is_text (
        install_unadopted-discarded machine parts site force old text
          (parts.canonical_block site.target_kind) current found
          (adopts_or_loses old text current {lost = lost} _ h3 loses) loses)
