-- ===== src/Manager/Instructions/Blocks/Spanned.antt =====
-- The span that `forced_owned_span` of src/instructions.rs finds.
use kaleidoscope_sdk.Prelude.{
  ℕ, ◌+◌, ◌-◌, ◌≤◌, ◌≡◌, refl, sym, ap, ◌∙◌, List, [], ◌∷◌, take, drop, length, Text, is_empty,
  Bool-cases, inl, inr, ◌⊎◌, arith, some, none, Option, ◌||◌, match_indices, find, some-injective,
}
use kaleidoscope_sdk.Manager.Instructions.{InstructionTarget, marker_start, marker_end}
use kaleidoscope_sdk.Manager.Instructions.Blocks.{
  forced_owned_span, span_from, line_end, relaxed_marker, widen,
}
use kaleidoscope_sdk.Manager.Instructions.Blocks.Spans.{
  All, Any, All-map, Below, widen_covers, widen_attained,
}

-- Behind the first line break from an offset on, or where the text ends.
abbrev pub IsLineEnd : Text → ℕ → ℕ → Type 0
IsLineEnd text offset finish =
    ((find (drop offset text) (b'\n' ∷ []) ≡ none) × (finish ≡ length text))
    ⊎ ((k : ℕ) × (find (drop offset text) (b'\n' ∷ []) ≡ some k) × (finish ≡ offset + k + 1))

-- From the lowest hit of either marker to the end of the line where the highest ends.
abbrev pub Spanned : Text → Text → Text → Text → Type 0
Spanned text opening closing block =
    (start : ℕ) × (highest : ℕ) × (finish : ℕ) × All
      (λ h. (start ≤ h) × (h + length opening ≤ highest)) (match_indices text opening)
    × All (λ h. (start ≤ h) × (h + length closing ≤ highest)) (match_indices text closing)
    × (Any (λ h. start ≡ h) (match_indices text opening)
        ⊎ Any (λ h. start ≡ h) (match_indices text closing))
    × ((highest ≡ 0)
        ⊎ (Any (λ h. highest ≡ h + length opening) (match_indices text opening)
            ⊎ Any (λ h. highest ≡ h + length closing) (match_indices text closing)))
    × IsLineEnd text highest finish
    × (block ≡ take (finish - start) (drop start text))

line_end-IsLineEnd : (text : Text) (offset : ℕ) → IsLineEnd text offset (line_end text offset)
line_end-IsLineEnd text offset = by_hit (find (drop offset text) (b'\n' ∷ [])) refl
  where
    by_hit :
        (found : Option ℕ)
        → find (drop offset text) (b'\n' ∷ []) ≡ found
        → IsLineEnd text offset (line_end text offset)
    by_hit none is_found = inl (is_found, rw (is_found, line_end) refl)
    by_hit (some k) is_found = inr (k, is_found, rw (is_found, line_end) refl)

module _ (text opening closing : Text) where
  abbrev first_span : Option ℕ × ℕ
  first_span = widen (length opening) (match_indices text opening) (none, 0)

  abbrev whole_span : Option ℕ × ℕ
  whole_span = widen (length closing) (match_indices text closing) first_span

  none-or : (o : Option ℕ) (low : ℕ) → o ≡ some low → o ≡ none → ⊥
  none-or none low is_low e = cc
  none-or (some k) low is_low e = cc

  Below-some : (o : Option ℕ) (low h : ℕ) → o ≡ some low → Below o h → low ≤ h
  Below-some none low h is_low b = cc
  Below-some (some k) low h is_low b = let same : k ≡ low = cc in omega (arith, same, b)

  start_attained :
      (low : ℕ)
      → whole_span.0 ≡ some low
      → Any (λ h. low ≡ h) (match_indices text opening)
        ⊎ Any (λ h. low ≡ h) (match_indices text closing)
  start_attained low is_low =
      later
        (widen_attained (length closing) (match_indices text closing) first_span.0 first_span.1).0
    where
      at_hits :
          (hits : List ℕ) {o : Option ℕ}
          → o ≡ some low
          → Any (λ h. o ≡ some h) hits
          → Any (λ h. low ≡ h) hits
      at_hits [] is_some any = any
      at_hits (h ∷ hits) is_some (inl e) = inl (some-injective (sym is_some ∙ e))
      at_hits (h ∷ hits) is_some (inr any) = inr (at_hits hits is_some any)

      earlier :
          first_span.0 ≡ some low
          → (first_span.0 ≡ none) ⊎ Any (λ h. first_span.0 ≡ some h) (match_indices text opening)
          → Any (λ h. low ≡ h) (match_indices text opening)
      earlier is_some (inl e) = absurd (none-or first_span.0 low is_some e)
      earlier is_some (inr any) = at_hits (match_indices text opening) is_some any

      later :
          (whole_span.0 ≡ first_span.0)
            ⊎ Any (λ h. whole_span.0 ≡ some h) (match_indices text closing)
          → Any (λ h. low ≡ h) (match_indices text opening)
            ⊎ Any (λ h. low ≡ h) (match_indices text closing)
      later (inl same) = inl (
          earlier (sym same ∙ is_low)
            (widen_attained (length opening) (match_indices text opening) none 0).0)
      later (inr any) = inr (at_hits (match_indices text closing) is_low any)

  finish_attained :
      (whole_span.1 ≡ 0)
      ⊎ (Any (λ h. whole_span.1 ≡ h + length opening) (match_indices text opening)
          ⊎ Any (λ h. whole_span.1 ≡ h + length closing) (match_indices text closing))
  finish_attained =
      later
        (widen_attained (length closing) (match_indices text closing) first_span.0 first_span.1).1
        (widen_attained (length opening) (match_indices text opening) none 0).1
    where
      moved :
          (hits : List ℕ) {n m : ℕ}
          → n ≡ m
          → Any (λ h. m ≡ h + length opening) hits
          → Any (λ h. n ≡ h + length opening) hits
      moved [] same any = any
      moved (h ∷ hits) same (inl e) = inl (same ∙ e)
      moved (h ∷ hits) same (inr any) = inr (moved hits same any)

      later :
          (whole_span.1 ≡ first_span.1)
            ⊎ Any (λ h. whole_span.1 ≡ h + length closing) (match_indices text closing)
          → (first_span.1 ≡ 0)
            ⊎ Any (λ h. first_span.1 ≡ h + length opening) (match_indices text opening)
          → (whole_span.1 ≡ 0)
            ⊎ (Any (λ h. whole_span.1 ≡ h + length opening) (match_indices text opening)
                ⊎ Any (λ h. whole_span.1 ≡ h + length closing) (match_indices text closing))
      later (inr any) which = inr (inr any)
      later (inl same) (inl zero_end) = inl (same ∙ zero_end)
      later (inl same) (inr any) = inr (inl (moved (match_indices text opening) same any))

  span_from-Spanned :
      (span : Option ℕ × ℕ) {b : Text}
      → whole_span ≡ span
      → span_from text span ≡ some b
      → Spanned text opening closing b
  span_from-Spanned (none, highest) is_span h = cc
  span_from-Spanned (some low, highest) is_span h =
      let is_low : whole_span.0 ≡ some low = ap (λ s. s.0) is_span in
      let is_high : whole_span.1 ≡ highest = ap (λ s. s.1) is_span in
      let (grows_a, low_a, all_a) =
        widen_covers (length opening) (match_indices text opening) none 0 in
      let (grows_b, low_b, all_b) =
        widen_covers (length closing) (match_indices text closing) first_span.0 first_span.1 in
      (
        low,
        whole_span.1,
        line_end text whole_span.1,
        All-map _ _ (match_indices text opening)
            (λ k p. (below_first k low_b is_low p.0, omega (arith, grows_b, p.1))) all_a,
        All-map _ _ (match_indices text closing)
            (λ k p. (Below-some whole_span.0 low k is_low p.0, p.1)) all_b,
        start_attained low is_low,
        finish_attained,
        line_end-IsLineEnd text whole_span.1,
        rw is_high (sym (some-injective h)),
      )
    where
      below_first :
          (k : ℕ)
          → ((l : ℕ) → first_span.0 ≡ some l → Below whole_span.0 l)
          → whole_span.0 ≡ some low
          → Below first_span.0 k
          → low ≤ k
      below_first k low_b is_low b = by_first first_span.0 refl b
        where
          by_first : (o : Option ℕ) → first_span.0 ≡ o → Below o k → low ≤ k
          by_first none is_o b' = absurd b'
          by_first (some l) is_o b' =
              omega (arith, Below-some whole_span.0 low l is_low (low_b l is_o), b')

pub forced_owned_span-Spanned :
    (text : Text) (target : InstructionTarget) {b : Text}
    → forced_owned_span text target ≡ some b
    → Spanned text (relaxed_marker (marker_start target)) (relaxed_marker (marker_end target)) b
unfolding forced_owned_span
forced_owned_span-Spanned text target {b} h =
    let start = relaxed_marker (marker_start target) in
    let finish = relaxed_marker (marker_end target) in
    elim (Bool-cases (is_empty start || is_empty finish)) [
      | inl no_marker ↦ absurd (ground (arith, no_marker))
      | inr markers ↦
          span_from-Spanned text start finish (whole_span text start finish) refl (rw markers at h)
    ]
