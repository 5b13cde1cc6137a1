-- ===== src/Manager/Instructions/Blocks.antt =====
-- src/instructions.rs, the owned block inside a text: finding, putting in and taking out.
pub mod Spans
pub mod Delimited
pub mod Spanned
pub mod Located
pub mod Found
pub mod Lines
pub mod RoundTrip
pub mod Removal
use kaleidoscope_sdk.Prelude.{
  is_some, ltb, leb, ◌==◌, if◌then◌else◌, length, get_elem?, take, drop, bytes_eq, Text, codes,
  is_empty, ℕ, ◌+◌, ◌-◌, min, max, Bool, true, false, not, ◌&&◌, ◌||◌, Option, none, some, List, [],
  ◌∷◌, ◌++◌, find, contains_text_in, match_indices, replace_first, ends_with,
}
use kaleidoscope_sdk.Manager.Error.{
  Result, ok, err, invalid_host_config, invalid_owner_receipt, host_conflict,
}
use kaleidoscope_sdk.Manager.Instructions.{
  InstructionTarget, OwnedShape, marker_block, whole_file, InstructionReceipt, marker_start,
  marker_end, target_eq,
}

-- The end of the block: behind the closing marker, and behind the line break there.
abbrev pub block_end : Text → Text → ℕ → ℕ
block_end text end_marker at =
    let after = at + length end_marker in
    elim (get_elem? text after) [ none ↦ after | some c ↦ if c == b'\n' then after + 1 else after ]

abbrev pub owned_between : Text → Text → List ℕ → List ℕ → Result (Option Text)
owned_between text end_marker [] [] = ok none
owned_between text end_marker (start ∷ []) (at ∷ []) =
    if ltb start at
    then ok (some (take (block_end text end_marker at - start) (drop start text)))
    else err (invalid_host_config "instruction owner marker is duplicated or incomplete")
owned_between text end_marker _ _ =
    err (invalid_host_config "instruction owner marker is duplicated or incomplete")

-- `find_owned_block`, for a target with markers.
unfoldable pub find_owned_block : Text → InstructionTarget → Result (Option Text)
find_owned_block text target =
    owned_between text (marker_end target) (match_indices text (marker_start target))
      (match_indices text (marker_end target))

-- `relaxed_marker`
unfoldable pub relaxed_marker : Text → Text
relaxed_marker full = elim (find full (codes "kaleidoscope-manager")) [
  | none ↦ full
  | some at ↦ take (at + length (codes "kaleidoscope-manager")) full
]

-- The loop of `forced_owned_span` over the hits of one marker of a given length: the lowest start and
-- the highest end.
unfoldable pub widen : ℕ → List ℕ → Option ℕ × ℕ → Option ℕ × ℕ
widen size [] span = span
widen size (at ∷ hits) (lowest, highest) =
    widen size hits (some (elim lowest [ none ↦ at | some l ↦ min l at ]), max highest (at + size))

-- The end of the line, from an offset.
abbrev pub line_end : Text → ℕ → ℕ
line_end text highest = elim (find (drop highest text) (b'\n' ∷ [])) [
  | none ↦ length text
  | some offset ↦ highest + offset + 1
]

abbrev pub span_from : Text → Option ℕ × ℕ → Option Text
span_from text (none, highest) = none
span_from text (some low, highest) = some (take (line_end text highest - low) (drop low text))

-- `forced_owned_span`
unfoldable pub forced_owned_span : Text → InstructionTarget → Option Text
unfolding widen relaxed_marker
forced_owned_span text target =
    let start = relaxed_marker (marker_start target) in
    let finish = relaxed_marker (marker_end target) in
    if is_empty start || is_empty finish
    then none
    else span_from text (
        widen (length finish) (match_indices text finish)
          (widen (length start) (match_indices text start) (none, 0)))

abbrev pub forced : Bool → Text → InstructionTarget → Result (Option Text) → Result (Option Text)
forced force text target (ok found) = ok found
forced false text target (err e) = err e
forced true text target (err e) = elim (forced_owned_span text target) [
  | none ↦ err e
  | some span ↦ ok (some span)
]

-- `current_owned`
unfoldable pub current_owned :
    Text → InstructionTarget → Option InstructionReceipt → OwnedShape → Bool → Result (Option Text)
current_owned text target receipt marker_block force =
    forced force text target (find_owned_block text target)
current_owned text target receipt whole_file force =
    if is_empty text then ok none else if is_some receipt then ok (some text) else ok none

-- `validate_ownership`. The two refusals differ in their words.
unfoldable pub validate_ownership :
    (Text → Text) → Option InstructionReceipt → Option Text → InstructionTarget → Result (Unit {0})
validate_ownership digest_bytes none none target = ok tt
validate_ownership digest_bytes (some receipt) (some current) target =
    if target_eq receipt.target target
      && bytes_eq receipt.owned_block current
      && bytes_eq receipt.owned_sha256 (digest_bytes current)
    then ok tt
    else err (host_conflict "the manager-owned instruction block has been hand-edited")
validate_ownership digest_bytes none (some current) target =
    err (host_conflict "a Kaleidoscope block that differs, and no manager owner receipt")
validate_ownership digest_bytes (some receipt) none target =
    err (host_conflict "the manager-owned instruction block has been hand-edited")

-- The separator of `install_block`.
unfoldable pub separator_for : Text → Text
separator_for text =
    if is_empty text || ends_with text (codes "\n\n")
    then []
    else if ends_with text (codes "\n")
    then codes "\n"
    else codes "\n\n"

-- `install_block`: the new text, and the separator that was put in.
unfoldable pub install_block : Text → Option Text → Text → OwnedShape → Result (Text × Text)
unfolding separator_for
install_block text current desired whole_file = ok (desired, [])
install_block text (some current) desired marker_block =
    if length (match_indices text current) == 1
    then ok (replace_first text current desired, [])
    else err (invalid_host_config "owned instruction block is ambiguous")
install_block text none desired marker_block =
    ok (text ++ (separator_for text ++ desired), separator_for text)

-- `removal_start`: the separator goes too, if it stands right before the block. The source slices there,
-- which is a panic if the offset lies inside a character; the model compares the bytes.
unfoldable pub removal_start : Text → Text → ℕ → ℕ
removal_start text separator start =
    if not (is_empty separator)
      && leb (length separator) start
      && bytes_eq (take (length separator) (drop (start - length separator) text)) separator
    then start - length separator
    else start

-- `remove_block`
unfoldable pub remove_block : Text → Text → Text → OwnedShape → Result Text
unfolding removal_start
remove_block text block separator whole_file = ok []
remove_block text block separator marker_block = elim (find text block) [
  | none ↦ err invalid_owner_receipt
  | some start ↦
      if contains_text_in (drop (start + length block) text) block
      then err invalid_owner_receipt
      else ok (take (removal_start text separator start) text ++ drop (start + length block) text)
]
