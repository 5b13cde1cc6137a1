-- ===== src/Manager/Hooks/Removal/Owned.antt =====
-- A removal by the receipt takes out the entry of the receipt, and nothing else.
use kaleidoscope_sdk.Prelude.{
  ℕ, ◌+◌, ◌<◌, ◌≡◌, refl, sym, ap, ◌∙◌, Bool, true, false, Option, none, some, List, [], ◌∷◌,
  Bool-cases, inl, inr, arith, lt→ltb,
}
use kaleidoscope_sdk.JsonSpan.Value.{Value, Items, Members, nil, cons, len, remove_item, value_eq}
use kaleidoscope_sdk.Manager.Error.{ok, ok-injective, >>=-eq-ok}
use kaleidoscope_sdk.Manager.Hooks.Document.{
  found_in, indices_in, indices_where, matching_indices, resembling_indices, remove_entry,
  remove_in, tidy_event, tidy_hooks,
}
use kaleidoscope_sdk.Manager.Hooks.Document.Replaced.{entries_of, found_in-entries_of}
use kaleidoscope_sdk.Manager.Hooks.Removal.{remove_document, remove_matching, remove_resembling}

abbrev pub join : Items → Items → Items
join nil ys = ys
join (cons v xs) ys = cons v (join xs ys)

module _ (test : Value → Bool) where
  abbrev pub NonePasses : Items → Type 0
  NonePasses nil = Unit {0}
  NonePasses (cons v xs) = (test v ≡ false) × NonePasses xs

  indices_where-NonePasses : (xs : Items) (at : ℕ) → indices_where test xs at ≡ [] → NonePasses xs
  unfolding indices_where
  indices_where-NonePasses nil at h = tt
  indices_where-NonePasses (cons w xs) at h = elim (Bool-cases (test w)) [
    | inl here ↦ absurd (cons-ne-nil at (indices_where test xs (at + 1)) (rw here at h))
    | inr later ↦ (later, indices_where-NonePasses xs (at + 1) (rw later at h))
  ]
    where
      cons-ne-nil : (i : ℕ) (is : List ℕ) → i ∷ is ≡ [] → ⊥
      cons-ne-nil i is e = cc

  -- The one entry that passes, between the others.
  abbrev Alone : Items → ℕ → ℕ → Type 0
  Alone xs at i =
      (a : Items) × (v : Value) × (b : Items) × (xs ≡ join a (cons v b))
      × (test v ≡ true)
      × NonePasses a
      × NonePasses b
      × (i ≡ at + len a)

  indices_where-Alone :
      (xs : Items) (at : ℕ) {i : ℕ} → indices_where test xs at ≡ i ∷ [] → Alone xs at i
  unfolding indices_where len
  indices_where-Alone nil at h = cc
  indices_where-Alone (cons w xs) at {i} h = elim (Bool-cases (test w)) [
    | inl here ↦ at_head (indices_where test xs (at + 1)) refl here (rw here at h)
    | inr later ↦ step later (indices_where-Alone xs (at + 1) (rw later at h))
  ]
    where
      at_head :
          (others : List ℕ)
          → indices_where test xs (at + 1) ≡ others
          → test w ≡ true
          → at ∷ others ≡ i ∷ []
          → Alone (cons w xs) at i
      at_head others same here e =
          let at_i : at ≡ i = cc in
          let no_others : others ≡ [] = cc in
          (
            nil,
            w,
            xs,
            refl,
            here,
            tt,
            indices_where-NonePasses xs (at + 1) (same ∙ no_others),
            omega (arith, at_i),
          )

      step : test w ≡ false → Alone xs (at + 1) i → Alone (cons w xs) at i
      step later (a, v, b, parts, passes, before, behind, e) =
          (cons w a, v, b, ap (cons w) parts, passes, (later, before), behind, omega (arith, e))

remove_item-join : (a b : Items) (v : Value) → remove_item (join a (cons v b)) (len a) ≡ join a b
unfolding remove_item len
remove_item-join nil b v = refl
remove_item-join (cons w a) b v = ap (cons w) (remove_item-join a b v)

len-join : (a b : Items) (v : Value) → len a < len (join a (cons v b))
unfolding len
len-join nil b v = omega arith
len-join (cons w a) b v = omega (arith, len-join a b v)

-- Of the entries under the event, the one that is equal to the receipt's goes, which no other is, and
-- those before it and behind it stay.
abbrev pub TakesOwned : Value → Value → Value → Type 0
TakesOwned document owned document' =
    (m : Members) × (hooks : Members) × (a : Items) × (entry : Value) × (b : Items) × (found_in
        document
      ≡ some (m, hooks, join a (cons entry b)))
    × (value_eq entry owned ≡ true)
    × NonePasses (λ v. value_eq v owned) a
    × NonePasses (λ v. value_eq v owned) b
    × (document' ≡ tidy_hooks m (tidy_event hooks (join a b)))

module _ (document owned document' : Value) where
  removed-TakesOwned :
      (m hooks : Members) (xs : Items) {i : ℕ}
      → found_in document ≡ some (m, hooks, xs)
      → remove_in i (some (m, hooks, xs)) ≡ ok document'
      → Alone (λ v. value_eq v owned) xs 0 i
      → TakesOwned document owned document'
  removed-TakesOwned m hooks xs {i} found h (a, v, b, parts, passes, before, behind, e) =
      let at_a : i ≡ len a = omega (arith, e) in
      let h' : remove_in (len a) (some (m, hooks, join a (cons v b))) ≡ ok document' =
        rw (← at_a, ← parts) h in
      (
        m,
        hooks,
        a,
        v,
        b,
        found ∙ ap (λ ys. some (m, hooks, ys)) parts,
        passes,
        before,
        behind,
        sym (
            ok-injective (
              rw (lt→ltb (len a) (len (join a (cons v b))) (len-join a b v), remove_item-join a b v)
                at h')),
      )

  found-TakesOwned :
      (found : Option (Members × Members × Items)) {i : ℕ}
      → found_in document ≡ found
      → indices_in (λ v. value_eq v owned) (entries_of found) ≡ i ∷ []
      → remove_in i found ≡ ok document'
      → TakesOwned document owned document'
  found-TakesOwned none is_found alone h = cc
  found-TakesOwned (some (m, hooks, xs)) is_found alone h =
      removed-TakesOwned m hooks xs is_found h
        (indices_where-Alone (λ v. value_eq v owned) xs 0 alone)

  some-injective : {x y : Value} → some x ≡ some y → x ≡ y
  some-injective h = cc

  matching-TakesOwned :
      (matches : List ℕ)
      → matching_indices document (some owned) ≡ matches
      → remove_matching false document owned matches ≡ ok (some document')
      → TakesOwned document owned document'
  unfolding matching_indices remove_entry
  matching-TakesOwned [] found h = absurd (refused (resembling_indices document owned) h)
    where
      refused :
          (resembling : List ℕ)
          → remove_resembling false document resembling ≡ ok (some document')
          → ⊥
      refused [] e = cc
      refused (i ∷ more) e = cc
  matching-TakesOwned (i ∷ []) found h =
      let removed = >>=-eq-ok (remove_entry document i) _ h in
      found-TakesOwned (found_in document) refl
        (ap (indices_in (λ v. value_eq v owned)) (sym (found_in-entries_of document)) ∙ found)
        (removed.1 ∙ ap ok (some-injective (ok-injective removed.2)))
  matching-TakesOwned (i ∷ j ∷ more) found h = cc

-- Without --force, a removal takes out an entry that is equal to the entry of the receipt, where no other
-- is, and leaves those before it and behind it in their order; where there are none, the event goes, and
-- with it an empty object `hooks`.
pub remove_document-TakesOwned :
    (document owned : Value) {document' : Value}
    → remove_document false document owned ≡ ok (some document')
    → TakesOwned document owned document'
unfolding remove_document
remove_document-TakesOwned document owned {document'} h =
    matching-TakesOwned document owned document' (matching_indices document (some owned)) refl h
