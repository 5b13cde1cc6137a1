-- ===== src/Manager/Instructions/Blocks/Delimited.antt =====
-- The block that `find_owned_block` of src/instructions.rs finds.
use kaleidoscope_sdk.Prelude.{
  ℕ, ◌+◌, ◌-◌, ◌<◌, ◌≡◌, ◌≢◌, refl, sym, ap, ◌∙◌, List, [], ◌∷◌, take, drop, length, get_elem?,
  Text, Bool-cases, inl, inr, ◌⊎◌, arith, some, none, Option, ◌==◌, match_indices, some-injective,
}
use kaleidoscope_sdk.Manager.Error.{ok}
use kaleidoscope_sdk.Manager.Instructions.{InstructionTarget, marker_start, marker_end}
use kaleidoscope_sdk.Manager.Instructions.Blocks.{find_owned_block, owned_between, block_end}

-- The end of a block whose closing marker ends at an offset: there, or behind a line break there.
abbrev pub IsEnd : Text → ℕ → ℕ → Type 0
IsEnd text after finish =
    ((get_elem? text after ≡ some b'\n') × (finish ≡ after + 1))
    ⊎ ((get_elem? text after ≢ some b'\n') × (finish ≡ after))

-- From the only opening marker to the end of the only closing marker behind it.
abbrev pub Delimited : Text → Text → Text → Text → Type 0
Delimited text opening closing block =
    (start : ℕ) × (at : ℕ) × (finish : ℕ) × (match_indices text opening ≡ start ∷ [])
    × (match_indices text closing ≡ at ∷ [])
    × (start < at)
    × IsEnd text (at + length closing) finish
    × (block ≡ take (finish - start) (drop start text))

block_end-IsEnd :
    (text closing : Text) (at : ℕ) → IsEnd text (at + length closing) (block_end text closing at)
block_end-IsEnd text closing at = by_byte (get_elem? text (at + length closing)) refl
  where
    by_byte :
        (found : Option ℕ)
        → get_elem? text (at + length closing) ≡ found
        → IsEnd text (at + length closing) (block_end text closing at)
    by_byte none is_found =
        inr (λ e. none-ne-newline (sym is_found ∙ e), rw (is_found, block_end) refl)
      where
        none-ne-newline : ◌≡◌ {A = Option ℕ} none (some b'\n') → ⊥
        none-ne-newline e = cc
    by_byte (some c) is_found = elim (Bool-cases (c == b'\n')) [
      | inl newline ↦
          inl (
            is_found ∙ ap some (ground (arith, newline)),
            rw (is_found, block_end) (rw newline refl),
          )
      | inr other ↦ inr (
        λ e.
            let same : c ≡ b'\n' = some-injective (sym is_found ∙ e) in ground (arith, other, same),
        rw (is_found, block_end) (rw other refl),
      )
    ]

owned_between-Delimited :
    (text opening closing : Text) (starts ends : List ℕ) {b : Text}
    → match_indices text opening ≡ starts
    → match_indices text closing ≡ ends
    → owned_between text closing starts ends ≡ ok (some b)
    → Delimited text opening closing b
owned_between-Delimited text o e [] [] is_starts is_ends h = cc
owned_between-Delimited text o e [] (at ∷ ends) is_starts is_ends h = cc
owned_between-Delimited text o e (s ∷ []) [] is_starts is_ends h = cc
owned_between-Delimited text o e (s ∷ []) (at ∷ []) is_starts is_ends h = (
  s,
  at,
  block_end text e at,
  is_starts,
  is_ends,
  ground arith,
  block_end-IsEnd text e at,
  ground arith,
)
owned_between-Delimited text o e (s ∷ []) (at ∷ at' ∷ ends) is_starts is_ends h = cc
owned_between-Delimited text o e (s ∷ s' ∷ starts) ends is_starts is_ends h = cc

pub find_owned_block-Delimited :
    (text : Text) (target : InstructionTarget) {b : Text}
    → find_owned_block text target ≡ ok (some b)
    → Delimited text (marker_start target) (marker_end target) b
unfolding find_owned_block
find_owned_block-Delimited text target h =
    owned_between-Delimited text (marker_start target) (marker_end target)
      (match_indices text (marker_start target)) (match_indices text (marker_end target)) refl refl
      h
