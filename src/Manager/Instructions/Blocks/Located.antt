-- ===== src/Manager/Instructions/Blocks/Located.antt =====
-- Where the manager's text is found in a file.
use kaleidoscope_sdk.Prelude.{
  ◌≡◌, refl, ◌∙◌, Bool, true, false, Text, Option-cases, inl, inr, ◌⊎◌, arith, some, Option,
}
use kaleidoscope_sdk.Manager.Error.{Result, ok, err}
use kaleidoscope_sdk.Manager.Instructions.{
  InstructionTarget, InstructionReceipt, OwnedShape, marker_block, whole_file, marker_start,
  marker_end,
}
use kaleidoscope_sdk.Manager.Instructions.Blocks.{
  find_owned_block, forced_owned_span, forced, current_owned, relaxed_marker,
}
use kaleidoscope_sdk.Manager.Instructions.Blocks.Delimited.{Delimited, find_owned_block-Delimited}
use kaleidoscope_sdk.Manager.Instructions.Blocks.Spanned.{Spanned, forced_owned_span-Spanned}

-- What the manager takes for its own, by the shape; the relaxed markers count with `--force` only.
abbrev pub Located : Text → InstructionTarget → OwnedShape → Bool → Text → Type 0
Located text target whole_file force block = block ≡ text
Located text target marker_block false block =
    Delimited text (marker_start target) (marker_end target) block
Located text target marker_block true block =
    Delimited text (marker_start target) (marker_end target) block
    ⊎ Spanned text (relaxed_marker (marker_start target)) (relaxed_marker (marker_end target)) block

forced-Located :
    (force : Bool) (text : Text) (target : InstructionTarget) (found : Result (Option Text))
    {b : Text}
    → find_owned_block text target ≡ found
    → forced force text target found ≡ ok (some b)
    → Located text target marker_block force b
forced-Located false text target (ok o) is_found h =
    find_owned_block-Delimited text target (is_found ∙ h)
forced-Located true text target (ok o) is_found h =
    inl (find_owned_block-Delimited text target (is_found ∙ h))
forced-Located false text target (err e) is_found h = cc
forced-Located true text target (err e) is_found h =
    elim (Option-cases (forced_owned_span text target)) [
      | inl missing ↦ absurd (ground (arith, missing))
      | inr (span, there) ↦ inr (forced_owned_span-Spanned text target (ground (arith, there)))
    ]

-- What the planners take for the manager's text: of a whole file, all of it; else the text from the only
-- opening marker to the end of the only closing marker behind it, with a line break there; or with
-- --force, the lines from the lowest hit of the markers' beginnings to the highest, with all of these hits.
pub current_owned-Located :
    (text : Text) (target : InstructionTarget) (receipt : Option InstructionReceipt)
    (shape : OwnedShape) (force : Bool) {block : Text}
    → current_owned text target receipt shape force ≡ ok (some block)
    → Located text target shape force block
unfolding current_owned
current_owned-Located text target receipt marker_block force h =
    forced-Located force text target (find_owned_block text target) refl h
current_owned-Located text target receipt whole_file force h = ground arith
