-- ===== src/Manager/Hooks/Document/Doubled.antt =====
-- An update beside an entry that is already the new one.
use kaleidoscope_sdk.Prelude.{
  ℕ, zero, suc, ◌+◌, ◌≡◌, refl, ap, ◌∙◌, Bool, true, false, some, List, ◌∷◌, Bool-cases, inl, inr,
}
use kaleidoscope_sdk.JsonSpan.Value.{Value, Items, nil, cons, item}
use kaleidoscope_sdk.Manager.Hooks.Document.{set_item, indices_where}

some-eq : {x y : Value} → some x ≡ some y → x ≡ y
some-eq h = cc

module _ (test : Value → Bool) (v : Value) (passes : test v ≡ true) where
  abbrev IsSome : List ℕ → Type 0
  IsSome ns = (a : ℕ) × (more : List ℕ) × (ns ≡ a ∷ more)

  abbrev pub IsTwo : List ℕ → Type 0
  IsTwo ns = (a : ℕ) × (b : ℕ) × (more : List ℕ) × (ns ≡ a ∷ b ∷ more)

  indices_where-set_item :
      (xs : Items) (i at : ℕ) {w : Value}
      → item xs i ≡ some w
      → IsSome (indices_where test (set_item xs i v) at)
  unfolding indices_where set_item item
  indices_where-set_item nil i at stands = cc
  indices_where-set_item (cons u xs) zero at stands =
      (at, indices_where test xs (at + 1), rw passes refl)
  indices_where-set_item (cons u xs) (suc i) at stands = elim (Bool-cases (test u)) [
    | inl here ↦ (at, indices_where test (set_item xs i v) (at + 1), rw here refl)
    | inr later ↦ rw later (indices_where-set_item xs i (at + 1) stands)
  ]

  pub indices_where-IsTwo :
      (xs : Items) (i at : ℕ) {w : Value} {j : ℕ} {rest : List ℕ}
      → item xs i ≡ some w
      → test w ≡ false
      → indices_where test xs at ≡ j ∷ rest
      → IsTwo (indices_where test (set_item xs i v) at)
  unfolding indices_where set_item item
  indices_where-IsTwo nil i at stands fails some_before = cc
  indices_where-IsTwo (cons u xs) zero at {j = j} {rest = rest} stands fails some_before =
      rw passes
        (at, j, rest, ap (λ ns. at ∷ ns) (rw (ap test (some-eq stands) ∙ fails) at some_before))
  indices_where-IsTwo (cons u xs) (suc i) at stands fails some_before = elim (Bool-cases (test u)) [
    | inl here ↦ rw here (behind (indices_where-set_item xs i (at + 1) stands))
    | inr later ↦
        rw later (indices_where-IsTwo xs i (at + 1) stands fails (rw later at some_before))
  ]
    where
      behind :
          IsSome (indices_where test (set_item xs i v) (at + 1))
          → IsTwo (at ∷ indices_where test (set_item xs i v) (at + 1))
      behind (a, more, e) = (at, a, more, ap (λ ns. at ∷ ns) e)
