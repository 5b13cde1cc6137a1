-- ===== src/Manager/Instructions/Blocks/Spans.antt =====
-- The span that `forced_owned_span` of src/instructions.rs collects over the hits of the two markers.
use kaleidoscope_sdk.Prelude.{
  ℕ, ◌+◌, ◌≤◌, ◌≡◌, refl, ap, ◌∙◌, Option, none, some, List, [], ◌∷◌, min, max, ◌⊎◌, inl, inr,
  arith,
}
use kaleidoscope_sdk.Manager.Instructions.Blocks.{widen}

abbrev pub All : (ℕ → Type 0) → List ℕ → Type 0
All P [] = Unit {0}
All P (h ∷ hits) = P h × All P hits

abbrev pub Any : (ℕ → Type 0) → List ℕ → Type 0
Any P [] = ⊥
Any P (h ∷ hits) = P h ⊎ Any P hits

pub All-map : (P Q : ℕ → Type 0) (hits : List ℕ) → ((h : ℕ) → P h → Q h) → All P hits → All Q hits
All-map P Q [] f all = tt
All-map P Q (h ∷ hits) f (p, all) = (f h p, All-map P Q hits f all)

abbrev pub Below : Option ℕ → ℕ → Type 0
Below none h = ⊥
Below (some l) h = l ≤ h

pub Below-le : (o : Option ℕ) (l h : ℕ) → Below o l → l ≤ h → Below o h
Below-le none l h b le = b
Below-le (some k) l h b le = omega (arith, b, le)

abbrev lower : Option ℕ → ℕ → ℕ
lower lowest at = elim lowest [ none ↦ at | some l ↦ min l at ]

lower-le : (lowest : Option ℕ) (at : ℕ) → lower lowest at ≤ at
lower-le none at = omega arith
lower-le (some l) at = omega arith

lower-Below : (lowest : Option ℕ) (at l : ℕ) → lowest ≡ some l → lower lowest at ≤ l
lower-Below none at l is_low = cc
lower-Below (some k) at l is_low = let same : k ≡ l = cc in omega (arith, same)

lower-or : (lowest : Option ℕ) (at : ℕ) → (some (lower lowest at) ≡ lowest) ⊎ (lower lowest at ≡ at)
lower-or none at = inr refl
lower-or (some l) at = least (omega arith)
  where
    least : (min l at ≡ l) ⊎ (min l at ≡ at) → (some (min l at) ≡ some l) ⊎ (min l at ≡ at)
    least (inl first) = inl (ap some first)
    least (inr second) = inr second

-- Every hit lies in the span, and the span grows.
pub widen_covers :
    (size : ℕ) (hits : List ℕ) (lowest : Option ℕ) (highest : ℕ)
    → (highest ≤ (widen size hits (lowest, highest)).1)
      × ((l : ℕ) → lowest ≡ some l → Below (widen size hits (lowest, highest)).0 l)
      × All
          (λ h.
            Below (widen size hits (lowest, highest)).0 h
            × (h + size ≤ (widen size hits (lowest, highest)).1))
          hits
unfolding widen
widen_covers size [] lowest highest = (omega arith, λ l is_low. at_low lowest l is_low, tt)
  where
    at_low : (o : Option ℕ) (l : ℕ) → o ≡ some l → Below o l
    at_low none l e = cc
    at_low (some k) l e = let same : k ≡ l = cc in omega (arith, same)
widen_covers size (at ∷ hits) lowest highest =
    let (grows, low, all) =
      widen_covers size hits (some (lower lowest at)) (max highest (at + size)) in
    let span = widen size hits (some (lower lowest at), max highest (at + size)) in
    (
      omega (arith, grows),
      λ l is_low.
          Below-le span.0 (lower lowest at) l (low (lower lowest at) refl)
            (lower-Below lowest at l is_low),
      (
        (
          Below-le span.0 (lower lowest at) at (low (lower lowest at) refl) (lower-le lowest at),
          omega (arith, grows),
        ),
        all,
      ),
    )

-- Its ends are those of hits, or as before.
pub widen_attained :
    (size : ℕ) (hits : List ℕ) (lowest : Option ℕ) (highest : ℕ)
    → (((widen size hits (lowest, highest)).0 ≡ lowest)
        ⊎ Any (λ h. (widen size hits (lowest, highest)).0 ≡ some h) hits)
      × (((widen size hits (lowest, highest)).1 ≡ highest)
          ⊎ Any (λ h. (widen size hits (lowest, highest)).1 ≡ h + size) hits)
unfolding widen
widen_attained size [] lowest highest = (inl refl, inl refl)
widen_attained size (at ∷ hits) lowest highest =
    let (low, high) = widen_attained size hits (some (lower lowest at)) (max highest (at + size)) in
    (low_step low (lower-or lowest at), high_step high (omega arith))
  where
    low_step :
        {o : Option ℕ}
        → (o ≡ some (lower lowest at)) ⊎ Any (λ h. o ≡ some h) hits
        → (some (lower lowest at) ≡ lowest) ⊎ (lower lowest at ≡ at)
        → (o ≡ lowest) ⊎ ((o ≡ some at) ⊎ Any (λ h. o ≡ some h) hits)
    low_step (inl same) (inl old) = inl (same ∙ old)
    low_step (inl same) (inr new) = inr (inl (same ∙ ap some new))
    low_step (inr later) which = inr (inr later)

    high_step :
        {n : ℕ}
        → (n ≡ max highest (at + size)) ⊎ Any (λ h. n ≡ h + size) hits
        → (max highest (at + size) ≡ highest) ⊎ (max highest (at + size) ≡ at + size)
        → (n ≡ highest) ⊎ ((n ≡ at + size) ⊎ Any (λ h. n ≡ h + size) hits)
    high_step (inl same) (inl old) = inl (same ∙ old)
    high_step (inl same) (inr new) = inr (inl (same ∙ new))
    high_step (inr later) which = inr (inr later)
