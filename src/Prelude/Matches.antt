-- ===== src/Prelude/Matches.antt =====
-- What a search in a text has found: lemmas on `find`, `match_indices`, `starts_with` and `ends_with`.
use Prim.Native.Nat.{ℕ, zero, suc, ◌+◌, ◌-◌}
use mathlib.Core.Path.{◌≡◌, refl, sym, ap, ◌∙◌}
use mathlib.Core.Bool.{true}
use mathlib.Core.List.{List, [], ◌∷◌, ◌++◌, map, reverse, reverse-append, reverse-reverse}
use mathlib.Core.Logic.{inl, inr}
use mathlib.Core.Option.{some}
use native.Mathlib.Omega.{arith}
use native.Mathlib.Nat.{zero-add, suc-add}
use kaleidoscope_sdk.Prelude.Tests.{Bool-cases, Option-cases}
use kaleidoscope_sdk.Prelude.Lists.{length, take, drop}
use kaleidoscope_sdk.Prelude.Strings.{Text, starts_with, strip_prefix, strip_suffix}
use kaleidoscope_sdk.Prelude.Search.{find_from, find, matches_from, ends_with}

pub take-append-drop : (n : ℕ) (t : Text) → take n t ++ drop n t ≡ t
take-append-drop zero t = refl
take-append-drop (suc n) [] = refl
take-append-drop (suc n) (c ∷ t) = ap (λ s. c ∷ s) (take-append-drop n t)

pub drop-drop : (m n : ℕ) (t : Text) → drop m (drop n t) ≡ drop (n + m) t
drop-drop m zero t = rw zero-add
drop-drop zero (suc n) [] = rw suc-add
drop-drop (suc m) (suc n) [] = rw suc-add
drop-drop m (suc n) (c ∷ t) = rw suc-add (drop-drop m n t)

pub drop-append : (n : ℕ) (u t : Text) → drop (length u + n) (u ++ t) ≡ drop n t
drop-append n [] t = rw zero-add
drop-append n (c ∷ u) t = rw suc-add (drop-append n u t)

pub drop-append_self : (u t : Text) → drop (length u) (u ++ t) ≡ t
drop-append_self [] t = refl
drop-append_self (c ∷ u) t = drop-append_self u t

pub drop-length : (t : Text) → drop (length t) t ≡ []
drop-length [] = refl
drop-length (c ∷ t) = drop-length t

pub take-append : (u t : Text) → take (length u) (u ++ t) ≡ u
take-append [] t = refl
take-append (c ∷ u) t = ap (λ s. c ∷ s) (take-append u t)

-- A text that starts with a pattern is the pattern and a rest.
pub starts_with-eq : (t p : Text) → starts_with t p ≡ true → t ≡ p ++ drop (length p) t
unfolding starts_with
starts_with-eq t [] h = refl
starts_with-eq [] (d ∷ p) h = cc
starts_with-eq (c ∷ t) (d ∷ p) h = ground (arith, starts_with-eq t p)

pub starts_with-append : (p t : Text) → starts_with (p ++ t) p ≡ true
unfolding starts_with
starts_with-append [] t = refl
starts_with-append (d ∷ p) t = ground (arith, starts_with-append p t)

-- A prefix of a prefix.
pub starts_with_trans :
    (t p q : Text) → starts_with t p ≡ true → starts_with p q ≡ true → starts_with t q ≡ true
unfolding starts_with
starts_with_trans t p [] h k = refl
starts_with_trans t [] (e ∷ q) h k = cc
starts_with_trans [] (d ∷ p) (e ∷ q) h k = cc
starts_with_trans (c ∷ t) (d ∷ p) (e ∷ q) h k = ground (arith, starts_with_trans t p q)

-- What a search finds is an occurrence.
pub find_from-starts_with :
    (t : Text) (at : ℕ) (p : Text) {k : ℕ}
    → find_from t at p ≡ some k
    → (i : ℕ) × (k ≡ at + i) × (starts_with (drop i t) p ≡ true)
unfolding find_from starts_with
find_from-starts_with [] at [] h = (0, ground arith, refl)
find_from-starts_with [] at (d ∷ p) h = cc
find_from-starts_with (c ∷ t) at p {k} h = elim (Bool-cases (starts_with (c ∷ t) p)) [
  | inl here ↦ (0, ground arith, here)
  | inr later ↦
      let rest : find_from t (at + 1) p ≡ some k = ground arith in
      let (i, at_i, found) = find_from-starts_with t (at + 1) p rest in
      (suc i, omega (arith, at_i), found)
]

pub find-eq :
    (t p : Text) {k : ℕ} → find t p ≡ some k → t ≡ take k t ++ (p ++ drop (k + length p) t)
find-eq t p {k} h =
    let (i, at_i, found) = find_from-starts_with t 0 p h in
    let k_i : k ≡ i = omega (arith, at_i) in
    let found' : starts_with (drop k t) p ≡ true = rw k_i found in
    sym (take-append-drop k t)
    ∙ ap (λ r. take k t ++ r)
        (starts_with-eq (drop k t) p found' ∙ ap (λ r. p ++ r) (drop-drop (length p) k t))

-- The first of the matches is an occurrence.
pub matches_from-starts_with :
    (t : Text) (skip at : ℕ) (p : Text) {k : ℕ} {ks : List ℕ}
    → matches_from t skip at p ≡ k ∷ ks
    → (i : ℕ) × (k ≡ at + i) × (starts_with (drop i t) p ≡ true)
unfolding matches_from
matches_from-starts_with [] skip at p h = cc
matches_from-starts_with (c ∷ t) (suc skip) at p h =
    let (i, at_i, found) = matches_from-starts_with t skip (at + 1) p h in
    (suc i, omega (arith, at_i), found)
matches_from-starts_with (c ∷ t) zero at p {k} {ks} h = elim (Bool-cases (starts_with (c ∷ t) p)) [
  | inl here ↦ (0, ground arith, here)
  | inr later ↦
      let rest : matches_from t 0 (at + 1) p ≡ k ∷ ks = ground arith in
      let (i, at_i, found) = matches_from-starts_with t 0 (at + 1) p rest in
      (suc i, omega (arith, at_i), found)
]

add_one : (k n : ℕ) → k + n + 1 ≡ k + (n + 1)
add_one k n = omega arith

-- The offset of the text moves the matches.
pub matches_from-add :
    (t : Text) (skip at k : ℕ) (p : Text)
    → matches_from t skip (k + at) p ≡ map (λ i. k + i) (matches_from t skip at p)
unfolding matches_from
matches_from-add [] skip at k p = refl
matches_from-add (c ∷ t) (suc skip) at k p =
    rw (add_one k at) (matches_from-add t skip (at + 1) k p)
matches_from-add (c ∷ t) zero at k p = elim (Bool-cases (starts_with (c ∷ t) p)) [
  | inl here ↦ rw here (
      rw (add_one k at) (ap (λ is. (k + at) ∷ is) (matches_from-add t (length p - 1) (at + 1) k p)))
  | inr later ↦ rw later (rw (add_one k at) (matches_from-add t 0 (at + 1) k p))
]

-- A text that ends with a suffix is a rest and the suffix.
strip_prefix-eq : (t p : Text) {r : Text} → strip_prefix t p ≡ some r → t ≡ p ++ r
unfolding strip_prefix
strip_prefix-eq t [] h = ground (arith, h)
strip_prefix-eq [] (d ∷ p) h = cc
strip_prefix-eq (c ∷ t) (d ∷ p) {r} h = ground (arith, strip_prefix-eq t p {r = r})

pub ends_with-eq : (t p : Text) → ends_with t p ≡ true → (r : Text) × (t ≡ r ++ p)
unfolding ends_with strip_suffix
ends_with-eq t p h = elim (Option-cases (strip_prefix (reverse t) (reverse p))) [
  | inl missing ↦ absurd (ground (arith, missing))
  | inr (r, found) ↦ (
    reverse r,
    sym (reverse-reverse t)
        ∙ ap reverse (strip_prefix-eq (reverse t) (reverse p) found)
        ∙ reverse-append (reverse p) r
        ∙ ap (λ q. reverse r ++ q) (reverse-reverse p),
  )
]
