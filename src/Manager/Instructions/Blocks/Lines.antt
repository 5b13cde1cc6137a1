-- ===== src/Manager/Instructions/Blocks/Lines.antt =====
-- A marker within one line, behind text that ends in a line break.
use kaleidoscope_sdk.Prelude.{
  not, ◌&&◌, ℕ, suc, ◌+◌, ◌≡◌, refl, ap, ◌∙◌, Bool, true, false, [], ◌∷◌, ◌++◌, map, length, Text,
  starts_with, is_empty, find_from, matches_from, match_indices, any, all, starts_with-append,
  Bool-cases, inl, inr, arith, ◌==◌, some, matches_from-add, starts_with_trans,
}

abbrev pub ends_in_break : Text → Bool
ends_in_break [] = true
ends_in_break (c ∷ []) = c == b'\n'
ends_in_break (c ∷ d ∷ t) = ends_in_break (d ∷ t)

abbrev pub has_break : Text → Bool
has_break t = any (λ c. c == b'\n') t

-- A pattern that stands in one line.
abbrev pub is_line : Text → Bool
is_line p = not (is_empty p) && not (has_break p)

pub is_line-parts : (p : Text) → is_line p ≡ true → (is_empty p ≡ false) × (has_break p ≡ false)
is_line-parts p h = ground arith

-- A pattern within one line is found in the text alone, or not at all.
starts_with-break :
    (c : ℕ) (u t p : Text)
    → ends_in_break (c ∷ u) ≡ true
    → has_break p ≡ false
    → starts_with ((c ∷ u) ++ t) p ≡ starts_with (c ∷ u) p
unfolding starts_with
starts_with-break c u t [] broken line = refl
starts_with-break c [] t (d ∷ p) broken line = ground arith
starts_with-break c (c' ∷ u) t (d ∷ p) broken line = ground (arith, starts_with-break c' u t p)

ends_in_break-tail : (c : ℕ) (u : Text) → ends_in_break (c ∷ u) ≡ true → ends_in_break u ≡ true
ends_in_break-tail c [] h = refl
ends_in_break-tail c (d ∷ u) h = h

pub ends_in_break-append :
    (t : Text) (c : ℕ) (u : Text)
    → ends_in_break (c ∷ u) ≡ true
    → ends_in_break (t ++ (c ∷ u)) ≡ true
ends_in_break-append [] c u h = h
ends_in_break-append (d ∷ []) c u h = h
ends_in_break-append (d ∷ e ∷ t) c u h = ends_in_break-append (e ∷ t) c u h

-- Text without a match, in front, only moves the matches.
matches_from-behind :
    (u t p : Text) (at : ℕ)
    → ends_in_break u ≡ true
    → has_break p ≡ false
    → matches_from u 0 at p ≡ []
    → matches_from (u ++ t) 0 at p ≡ matches_from t 0 (length u + at) p
unfolding matches_from
matches_from-behind [] t p at broken line none = ap (λ n. matches_from t 0 n p) (omega arith)
matches_from-behind (c ∷ u) t p at broken line none = elim (Bool-cases (starts_with (c ∷ u) p)) [
  | inl here ↦ absurd (ground (arith, here))
  | inr later ↦
      let rest : matches_from u 0 (at + 1) p ≡ [] = ground arith in
      let moved : length u + (at + 1) ≡ suc (length u) + at = omega arith in
      rw (starts_with-break c u t p broken line, later)
        (rw (← moved)
          (matches_from-behind u t p (at + 1) (ends_in_break-tail c u broken) line rest))
]

pub match_indices-behind :
    (u t p : Text)
    → ends_in_break u ≡ true
    → has_break p ≡ false
    → match_indices u p ≡ []
    → match_indices (u ++ t) p ≡ map (λ i. length u + i) (match_indices t p)
match_indices-behind u t p broken line none =
    matches_from-behind u t p 0 broken line none ∙ matches_from-add t 0 0 (length u) p

abbrev pub all_breaks : Text → Bool
all_breaks u = all (λ c. c == b'\n') u

starts_with-breaks :
    (t u p : Text)
    → all_breaks u ≡ true
    → has_break p ≡ false
    → starts_with (t ++ u) p ≡ starts_with t p
unfolding starts_with
starts_with-breaks t u [] broken line = refl
starts_with-breaks [] [] (d ∷ p) broken line = refl
starts_with-breaks [] (c ∷ u) (d ∷ p) broken line = ground arith
starts_with-breaks (c ∷ t) u (d ∷ p) broken line = ground (arith, starts_with-breaks t u p)

-- Line breaks bring no match.
pub matches_from-breaks :
    (t u p : Text) (at : ℕ)
    → is_empty p ≡ false
    → has_break p ≡ false
    → all_breaks u ≡ true
    → matches_from t 0 at p ≡ []
    → matches_from (t ++ u) 0 at p ≡ []
unfolding matches_from starts_with
matches_from-breaks [] [] p at pat line broken none = refl
matches_from-breaks [] (c ∷ u) [] at pat line broken none = cc
matches_from-breaks [] (c ∷ u) (d ∷ p) at pat line broken none =
    ground (arith, matches_from-breaks [] u (d ∷ p) (at + 1))
matches_from-breaks (c ∷ t) u p at pat line broken none =
    elim (Bool-cases (starts_with (c ∷ t) p)) [
      | inl here ↦ absurd (ground (arith, here))
      | inr later ↦
          let rest : matches_from t 0 (at + 1) p ≡ [] = ground arith in
          rw (starts_with-breaks (c ∷ t) u p broken line, later)
            (matches_from-breaks t u p (at + 1) pat line broken rest)
    ]

not_here :
    (c : ℕ) (u t p q : Text)
    → ends_in_break (c ∷ u) ≡ true
    → has_break p ≡ false
    → starts_with q p ≡ true
    → starts_with (c ∷ u) p ≡ false
    → starts_with ((c ∷ u) ++ (q ++ t)) q ≡ false
not_here c u t p q broken line starts later =
    elim (Bool-cases (starts_with ((c ∷ u) ++ (q ++ t)) q)) [
      | inl here ↦
          absurd
            (cc (starts_with_trans _ q p here starts, starts_with-break c u (q ++ t) p broken line))
      | inr away ↦ away
    ]

-- A search for what starts with the pattern passes the text too.
pub find_from-behind :
    (u t p q : Text) (at : ℕ)
    → ends_in_break u ≡ true
    → has_break p ≡ false
    → starts_with q p ≡ true
    → matches_from u 0 at p ≡ []
    → find_from (u ++ (q ++ t)) at q ≡ some (length u + at)
unfolding find_from matches_from starts_with
find_from-behind [] [] p [] at broken line starts none = ap some (omega arith)
find_from-behind [] (c ∷ t) p [] at broken line starts none = ap some (omega arith)
find_from-behind [] t p (d ∷ q) at broken line starts none =
    rw (starts_with-append (d ∷ q) t) (ap some (omega arith))
find_from-behind (c ∷ u) t p q at broken line starts none =
    elim (Bool-cases (starts_with (c ∷ u) p)) [
      | inl here ↦ absurd (ground (arith, here))
      | inr later ↦
          let rest : matches_from u 0 (at + 1) p ≡ [] = ground arith in
          let moved : length u + (at + 1) ≡ suc (length u) + at = omega arith in
          rw (not_here c u t p q broken line starts later) (
            rw (← moved)
              (find_from-behind u t p q (at + 1) (ends_in_break-tail c u broken) line starts rest))
    ]
