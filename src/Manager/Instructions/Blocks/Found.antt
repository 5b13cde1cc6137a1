-- ===== src/Manager/Instructions/Blocks/Found.antt =====
-- What is found as the manager's text is a part of the file.
use kaleidoscope_sdk.Prelude.{
  ℕ, ◌-◌, ◌≡◌, sym, ap, ◌∙◌, Bool, true, false, List, [], ◌∷◌, ◌++◌, take, drop, take-append-drop,
  Text, is_empty, Bool-cases, Option-cases, inl, inr, arith, some, none, Option, ◌||◌,
  match_indices,
}
use mathlib.Core.List.{append-nil}
use kaleidoscope_sdk.Manager.Error.{Result, ok, err}
use kaleidoscope_sdk.Manager.Instructions.{
  InstructionTarget, InstructionReceipt, OwnedShape, marker_block, whole_file, marker_start,
  marker_end,
}
use kaleidoscope_sdk.Manager.Instructions.Blocks.{
  find_owned_block, owned_between, block_end, forced_owned_span, span_from, line_end, forced,
  current_owned, relaxed_marker,
}

-- `part` stands in the text.
abbrev pub Holds : Text → Text → Type 0
Holds text part = (a : Text) × (c : Text) × (text ≡ a ++ (part ++ c))

slice-Holds : (text : Text) (k n : ℕ) {b : Text} → b ≡ take n (drop k text) → Holds text b
slice-Holds text k n is_slice = (
  take k text,
  drop n (drop k text),
  sym (take-append-drop k text)
      ∙ ap (λ r. take k text ++ r)
          (sym (take-append-drop n (drop k text))
            ∙ ap (λ s. s ++ drop n (drop k text)) (sym is_slice)),
)

owned_between-Holds :
    (text e : Text) (starts ends : List ℕ) {b : Text}
    → owned_between text e starts ends ≡ ok (some b)
    → Holds text b
owned_between-Holds text e [] [] h = cc
owned_between-Holds text e [] (at ∷ ends) h = cc
owned_between-Holds text e (s ∷ []) [] h = cc
owned_between-Holds text e (s ∷ []) (at ∷ []) h =
    slice-Holds text s (block_end text e at - s) (ground arith)
owned_between-Holds text e (s ∷ []) (at ∷ at' ∷ ends) h = cc
owned_between-Holds text e (s ∷ s' ∷ starts) ends h = cc

find_owned_block-Holds :
    (text : Text) (target : InstructionTarget) {b : Text}
    → find_owned_block text target ≡ ok (some b)
    → Holds text b
unfolding find_owned_block
find_owned_block-Holds text target h =
    owned_between-Holds text (marker_end target) (match_indices text (marker_start target))
      (match_indices text (marker_end target)) h

span_from-Holds :
    (text : Text) (span : Option ℕ × ℕ) {b : Text} → span_from text span ≡ some b → Holds text b
span_from-Holds text (none, highest) h = cc
span_from-Holds text (some low, highest) h =
    slice-Holds text low (line_end text highest - low) (ground arith)

forced_owned_span-Holds :
    (text : Text) (target : InstructionTarget) {b : Text}
    → forced_owned_span text target ≡ some b
    → Holds text b
unfolding forced_owned_span
forced_owned_span-Holds text target {b} h =
    let start = relaxed_marker (marker_start target) in
    let finish = relaxed_marker (marker_end target) in
    elim (Bool-cases (is_empty start || is_empty finish)) [
      | inl no_marker ↦ absurd (ground (arith, no_marker))
      | inr markers ↦ span_from-Holds text _ (rw markers at h)
    ]

forced-Holds :
    (force : Bool) (text : Text) (target : InstructionTarget) (found : Result (Option Text))
    {b : Text}
    → ((b' : Text) → found ≡ ok (some b') → Holds text b')
    → forced force text target found ≡ ok (some b)
    → Holds text b
forced-Holds force text target (ok o) {b} known h = known b h
forced-Holds false text target (err e) known h = cc
forced-Holds true text target (err e) {b} known h =
    elim (Option-cases (forced_owned_span text target)) [
      | inl missing ↦ absurd (ground (arith, missing))
      | inr (span, found) ↦ forced_owned_span-Holds text target (ground (arith, found))
    ]

-- What the planners take for the manager's text, with `--force` or without, is a part of the file as
-- it stands: a span of it, or for a whole file all of it.
pub current_owned-Holds :
    (text : Text) (target : InstructionTarget) (receipt : Option InstructionReceipt)
    (shape : OwnedShape) (force : Bool) {block : Text}
    → current_owned text target receipt shape force ≡ ok (some block)
    → Holds text block
unfolding current_owned
current_owned-Holds text target receipt marker_block force h =
    forced-Holds force text target (find_owned_block text target)
      (λ b found. find_owned_block-Holds text target found) h
current_owned-Holds text target receipt whole_file force {block} h =
    let whole : text ≡ block = ground arith in ([], [], whole ∙ sym (append-nil block))
