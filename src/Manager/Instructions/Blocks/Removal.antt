-- ===== src/Manager/Instructions/Blocks/Removal.antt =====
-- What taking a block out of a text leaves of it.
use kaleidoscope_sdk.Prelude.{
  ℕ, zero, suc, ◌+◌, ◌-◌, ◌≡◌, ◌≤◌, refl, sym, ap, ◌∙◌, Bool, true, not, [], ◌∷◌, ◌++◌, length,
  take, drop, Text, is_empty, find, Bool-cases, Option-cases, inl, inr, ◌⊎◌, arith, ◌&&◌, leb,
  bytes_eq, bytes_eq→eq, find-eq, leb→le,
}
use native.Mathlib.Nat.{suc-add}
use mathlib.Core.List.{append_assoc, append-nil}
use kaleidoscope_sdk.Manager.Error.{ok}
use kaleidoscope_sdk.Manager.Instructions.{marker_block}
use kaleidoscope_sdk.Manager.Instructions.Blocks.{removal_start, remove_block}

take_add : (m k : ℕ) (t : Text) → take (m + k) t ≡ take m t ++ take k (drop m t)
take_add zero k t = ap (λ n. take n t) (omega arith)
take_add (suc m) zero [] = rw suc-add
take_add (suc m) (suc k) [] = rw suc-add
take_add (suc m) k (c ∷ t) = rw suc-add (ap (λ s. c ∷ s) (take_add m k t))

abbrev goes_too : Text → Text → ℕ → Bool
goes_too text separator start =
    not (is_empty separator)
    && leb (length separator) start
    && bytes_eq (take (length separator) (drop (start - length separator) text)) separator

goes_too-eq :
    (text separator : Text) (start : ℕ)
    → goes_too text separator start ≡ true
    → (length separator ≤ start)
      × (take (length separator) (drop (start - length separator) text) ≡ separator)
goes_too-eq text separator start goes = ground (
  arith,
  leb→le (length separator) start,
  bytes_eq→eq (take (length separator) (drop (start - length separator) text)) separator,
)

-- What the block loses in front is nothing, or the separator.
removal_start-eq :
    (text separator : Text) (start : ℕ)
    → (s : Text) × (take start text ≡ take (removal_start text separator start) text ++ s)
      × ((s ≡ []) ⊎ (s ≡ separator))
unfolding removal_start
removal_start-eq text separator start = elim (Bool-cases (goes_too text separator start)) [
  | inl goes ↦
      let (longer, found) = goes_too-eq text separator start goes in
      let parts : start - length separator + length separator ≡ start = omega (arith, longer) in
      (
        separator,
        rw goes (
            ap (λ n. take n text) (sym parts)
            ∙ take_add (start - length separator) (length separator) text
            ∙ ap (λ s. take (start - length separator) text ++ s) found),
        inr refl,
      )
  | inr stays ↦ ([], rw stays (sym (append-nil _)), inl refl)
]

-- A removal that succeeds takes out the block, and at most the separator before it: everything else in
-- the text stays, in its order.
pub remove_block-keeps :
    (text block separator out : Text)
    → remove_block text block separator marker_block ≡ ok out
    → (a : Text) × (s : Text) × (b : Text) × (text ≡ a ++ (s ++ (block ++ b)))
      × ((s ≡ []) ⊎ (s ≡ separator))
      × (out ≡ a ++ b)
unfolding remove_block
remove_block-keeps text block separator out removed = elim (Option-cases (find text block)) [
  | inl missing ↦ absurd (ground (arith, missing))
  | inr (start, found) ↦
      let (s, split, which) = removal_start-eq text separator start in
      let b = drop (start + length block) text in
      let start' = removal_start text separator start in
      (
        take start' text,
        s,
        b,
        find-eq text block found
            ∙ ap (λ a. a ++ (block ++ b)) split
            ∙ append_assoc (take start' text) s (block ++ b),
        which,
        ground (arith, found),
      )
]
