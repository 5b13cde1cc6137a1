-- ===== src/JsonSpan/Excise.antt =====
-- src/json_span.rs, `span_of` and `excise`: the bytes to delete for a path, and the checked cut.
pub mod Bounds
pub mod Sound
use kaleidoscope_sdk.Prelude.{
  require, ltb, ◌==◌, if◌then◌else◌, length, get_elem?, ℕ, zero, suc, ◌+◌, ◌-◌, Bool, false, not,
  ◌&&◌, Option, none, some, [], ◌∷◌, ◌++◌, ◌>>=◌, ◌>>◌,
}
use kaleidoscope_sdk.JsonSpan.Value.{Bytes, Value, value_eq}
use kaleidoscope_sdk.JsonSpan.Removal.{NodePath, removal_path}
use kaleidoscope_sdk.JsonSpan.Scanner.{fuel_for, is_space}
use kaleidoscope_sdk.JsonSpan.Enter.{Serde, slice, Hit, enter}

-- `is_space(bytes[i])`. An index past the end would be a panic: JsonSpan.Excise.Bounds shows that
-- the loops below stay inside the container that `enter` found.
unfoldable pub space_at : Bytes → ℕ → Bool
space_at text i = elim (get_elem? text i) [ none ↦ false | some c ↦ is_space c ]

-- `while cursor < hit.close && is_space(bytes[cursor]) { cursor += 1; }`
unfoldable pub skip_right : ℕ → Bytes → ℕ → ℕ → ℕ
skip_right zero text limit cursor = cursor
skip_right (suc fuel) text limit cursor =
    let rest = skip_right fuel text limit (cursor + 1) in
    if ltb cursor limit && space_at text cursor then rest else cursor

-- `while start > hit.open + 1 && is_space(bytes[start - 1]) { start -= 1; }`
unfoldable pub skip_left : ℕ → Bytes → ℕ → ℕ → ℕ
skip_left zero text limit start = start
skip_left (suc fuel) text limit start =
    let rest = skip_left fuel text limit (start - 1) in
    if ltb limit start && space_at text (start - 1) then rest else start

-- `bytes.get(i) == Some(&b',')`
unfoldable pub comma_at : Bytes → ℕ → Bool
comma_at text i = elim (get_elem? text i) [ none ↦ false | some c ↦ c == b',' ]

-- The last member: the comma before it is the one that goes with it.
unfoldable pub before_last : Bytes → Hit → Option (ℕ × ℕ)
before_last text hit =
    let start = skip_left (fuel_for text) text (hit.opener + 1) hit.start in
    if start == 0
    then none
    else if comma_at text (start - 1)
    then some (start - 1, hit.finish)
    else none

-- The second half of `span_of`: the range to delete for the member that was hit.
unfoldable pub span_of_hit : Bytes → Hit → Option (ℕ × ℕ)
unfolding skip_right before_last
span_of_hit text hit =
    if hit.count == 1
    then some (hit.opener + 1, hit.closer)
    else (let cursor = skip_right (fuel_for text) text hit.closer hit.finish in
        if comma_at text cursor
        then some (hit.start, skip_right (fuel_for text) text hit.closer (cursor + 1))
        else before_last text hit)

module _ (serde : Serde) (text : Bytes) where
  -- The loop over the path: down to the container of the last segment.
  unfoldable pub walk : NodePath → ℕ → Option Hit
  walk [] at = none
  walk (segment ∷ []) at = enter serde text segment at
  walk (segment ∷ next ∷ path) at =
      enter serde text segment at >>= λ hit. walk (next ∷ path) hit.value_start

  -- `span_of`
  unfoldable pub span_of : NodePath → Option (ℕ × ℕ)
  unfolding walk span_of_hit
  span_of path = walk path 0 >>= λ hit. span_of_hit text hit

  -- `excise`
  unfoldable pub excise : Value → Value → Option Bytes
  unfolding span_of slice
  excise before after = do
    require (not (value_eq before after))
    path ← removal_path before after
    (start, finish) ← span_of path
    head ← slice text 0 start
    tail ← slice text finish (length text)
    reparsed ← serde.parse (head ++ tail)
    require (value_eq reparsed after)
    some (head ++ tail)
