-- ===== src/JsonSpan/Removal/Sound.antt =====
-- What `removal_path` of src/json_span.rs promises: the path that it returns leads to one node,
-- and the second document is the first without that node.
use native.Mathlib.Nat.{zero-add}
use mathlib.Core.Path.{subst}
use kaleidoscope_sdk.Prelude.{
  Bool-cases, Option-cases, >>=-eq-some, ◌==◌, if◌then◌else◌, ==_iff, bytes_eq, bytes_eq→eq,
  bytes_eq_self, ℕ, zero, suc, ◌+◌, ◌<◌, ◌≡◌, refl, sym, ◌≢◌, ◌⊎◌, inl, inr, Bool, true, false,
  Option, none, some, List, [], ◌∷◌, arith,
}
use kaleidoscope_sdk.JsonSpan.Value.{
  Bytes, Value, array, object, Items, nil, cons, Members, end, member, get, contains_key, len, item,
  remove_item, value_eq, items_eq,
}
use kaleidoscope_sdk.JsonSpan.Removal.{
  key, index, NodePath, adds_key, removed_keys, changed_keys, one_removed, one_changed, classify,
  differing, only, first_removed, is_changed, removal_path, removal_under, removal_in, Difference,
  other_shape, by_difference, by_length,
}

-- Both sides are missing, or both are there and equal.
abbrev pub agree : Option Value → Option Value → Bool
agree none none = true
agree (some v) (some w) = value_eq v w
agree _ _ = false

-- `Removes path b a`: `a` is `b` without the node at `path`, and every other node on the way agrees.
pub data Removes : NodePath → Value → Value → Type 0 where
  drop_member :
      (k : Bytes) (b a : Members)
      → contains_key k b ≡ true
      → contains_key k a ≡ false
      → ((j : Bytes) → j ≢ k → agree (get j b) (get j a) ≡ true)
      → Removes (key k ∷ []) (object b) (object a)
  in_member :
      (k : Bytes) (b a : Members) (v w : Value) (path : NodePath)
      → get k b ≡ some v
      → get k a ≡ some w
      → Removes path v w
      → ((j : Bytes) → j ≢ k → agree (get j b) (get j a) ≡ true)
      → Removes (key k ∷ path) (object b) (object a)
  drop_item :
      (i : ℕ) (b a : Items)
      → i < len b
      → items_eq (remove_item b i) a ≡ true
      → Removes (index i ∷ []) (array b) (array a)
  in_item :
      (i : ℕ) (b a : Items) (v w : Value) (path : NodePath)
      → item b i ≡ some v
      → item a i ≡ some w
      → Removes path v w
      → ((j : ℕ) → j ≢ i → agree (item b j) (item a j) ≡ true)
      → Removes (index i ∷ path) (array b) (array a)

abbrev Elem : {A : Type 0} → A → List A → Type 0
Elem x [] = ⊥
Elem x (y ∷ ys) = (y ≡ x) ⊎ Elem x ys

-- The difference of two objects under one key, found in the lists that the code collects.
module _ (j : Bytes) where
  get-removed :
      (b a : Members) (v : Value) → get j b ≡ some v → get j a ≡ none → Elem j (removed_keys b a)
  unfolding get contains_key removed_keys
  get-removed end a v h n = cc
  get-removed (member k u b) a v h n = elim (Bool-cases (bytes_eq k j)) [
    | inl same ↦ ground (arith, bytes_eq→eq k j same)
    | inr other ↦ ground (arith, get-removed b a v)
  ]

  get-changed :
      (b a : Members) (v w : Value)
      → get j b ≡ some v
      → get j a ≡ some w
      → value_eq v w ≡ false
      → Elem j (changed_keys b a)
  unfolding get is_changed changed_keys
  get-changed end a v w h n e = cc
  get-changed (member k u b) a v w h n e = elim (Bool-cases (bytes_eq k j)) [
    | inl same ↦ ground (arith, bytes_eq→eq k j same)
    | inr other ↦ ground (arith, get-changed b a v w)
  ]

  get-adds_key : (a b : Members) → adds_key a b ≡ false → get j b ≡ none → get j a ≡ none
  unfolding get contains_key adds_key
  get-adds_key end b h n = refl
  get-adds_key (member k v a) b h n = elim (Bool-cases (bytes_eq k j)) [
    | inl same ↦ ground (arith, bytes_eq→eq k j same)
    | inr other ↦ ground (arith, get-adds_key a b)
  ]

  removed-contains_key :
      (b a : Members)
      → Elem j (removed_keys b a)
      → (contains_key j b ≡ true) × (contains_key j a ≡ false)
  unfolding get contains_key removed_keys
  removed-contains_key end a h = elim h [ ]
  removed-contains_key (member k v b) a h =
      ground (arith, bytes_eq_self j, removed-contains_key b a)

  agree_outside :
      (b a : Members)
      → adds_key a b ≡ false
      → ¬ Elem j (removed_keys b a)
      → ¬ Elem j (changed_keys b a)
      → agree (get j b) (get j a) ≡ true
  agree_outside b a fresh r c = elim (Option-cases (get j b)) [
    | inl out ↦ rw (out, get-adds_key a b fresh out) refl
    | inr (v, e) ↦ elim (Option-cases (get j a)) [
      | inl gone ↦ absurd (r (get-removed b a v e gone))
      | inr (w, f) ↦ elim (Bool-cases (value_eq v w)) [
        | inl same ↦ rw (e, f) same
        | inr differ ↦ absurd (c (get-changed b a v w e f differ))
      ]
    ]
  ]

classify-one_removed :
    (r c : List Bytes) {k : Bytes} → classify r c ≡ one_removed k → (r ≡ k ∷ []) × (c ≡ [])
unfolding classify
classify-one_removed [] [] h = cc
classify-one_removed [] (x ∷ []) h = cc
classify-one_removed [] (x ∷ y ∷ c) h = cc
classify-one_removed (x ∷ []) [] h = ground arith
classify-one_removed (x ∷ []) (y ∷ c) h = cc
classify-one_removed (x ∷ y ∷ r) [] h = cc
classify-one_removed (x ∷ y ∷ r) (z ∷ c) h = cc

classify-one_changed :
    (r c : List Bytes) {k : Bytes} → classify r c ≡ one_changed k → (r ≡ []) × (c ≡ k ∷ [])
unfolding classify
classify-one_changed [] [] h = cc
classify-one_changed [] (x ∷ []) h = ground arith
classify-one_changed [] (x ∷ y ∷ c) h = cc
classify-one_changed (x ∷ []) [] h = cc
classify-one_changed (x ∷ []) (y ∷ c) h = cc
classify-one_changed (x ∷ y ∷ r) [] h = cc
classify-one_changed (x ∷ y ∷ r) (z ∷ c) h = cc

only-eq_some : (is : List ℕ) {i : ℕ} → only is ≡ some i → is ≡ i ∷ []
unfolding only
only-eq_some [] h = cc
only-eq_some (x ∷ []) h = ground arith
only-eq_some (x ∷ y ∷ is) h = cc

Elem-if :
    {A : Type 0} (c : Bool) (x y : A) (r : List A) → Elem x r → Elem x (if c then r else y ∷ r)
Elem-if true x y r h = h
Elem-if false x y r h = inr h

item-differing :
    (b a : Items) (i j : ℕ)
    → len b ≡ len a
    → ¬ Elem (i + j) (differing b a i)
    → agree (item b j) (item a j) ≡ true
unfolding len item differing
item-differing nil nil i j e h = refl
item-differing nil (cons w a) i j e h = absurd (omega arith)
item-differing (cons v b) nil i j e h = absurd (omega arith)
item-differing (cons v b) (cons w a) i zero e h = ground arith
item-differing (cons v b) (cons w a) i (suc j) e h =
    let shift : i + suc j ≡ i + 1 + j = omega arith in
    let tail : ¬ Elem (i + 1 + j) (differing b a (i + 1)) =
      λ m. h (rw shift (Elem-if (value_eq v w) _ i _ m)) in
    item-differing b a (i + 1) j (omega arith) tail

first_removed_lem :
    (n i : ℕ) (b a : Items) (r : ℕ)
    → first_removed n i b a ≡ some r
    → (r < i + n) × (items_eq (remove_item b r) a ≡ true)
unfolding first_removed
first_removed_lem zero i b a r h = cc
first_removed_lem (suc n) i b a r h = ground (arith, first_removed_lem n (i + 1) b a r)

Elem-only : {A : Type 0} {x y : A} → Elem x (y ∷ []) → y ≡ x
Elem-only (inl e) = e
Elem-only (inr h) = absurd h

contains_key-get :
    (k : Bytes) (m : Members) {v : Value} → get k m ≡ some v → contains_key k m ≡ true
unfolding contains_key
contains_key-get k m h = rw (h, contains_key) refl

none-ne-some {ℓ} : {A : Type ℓ} {x : A} → ◌≡◌ {A = Option A} none (some x) → ⊥
none-ne-some h = cc

-- The parts of the proof that need no recursive call.
sound_removed :
    (b a : Members) (k : Bytes)
    → adds_key a b ≡ false
    → classify (removed_keys b a) (changed_keys b a) ≡ one_removed k
    → Removes (key k ∷ []) (object b) (object a)
sound_removed b a k fresh h =
    let lists = classify-one_removed (removed_keys b a) (changed_keys b a) h in
    let here = removed-contains_key k b a (rw (lists.0) (inl refl)) in
    drop_member k b a (here.0) (here.1) (λ j ne.
      agree_outside j b a fresh (λ m. ne (sym (Elem-only (rw (lists.0) at m))))
        (λ m. rw (lists.1) at m))

sound_changed :
    (b a : Members) (k : Bytes)
    → adds_key a b ≡ false
    → classify (removed_keys b a) (changed_keys b a) ≡ one_changed k
    → (j : Bytes) → j ≢ k
    → agree (get j b) (get j a) ≡ true
sound_changed b a k fresh h j ne =
    let lists = classify-one_changed (removed_keys b a) (changed_keys b a) h in
    agree_outside j b a fresh (λ m. rw (lists.0) at m)
      (λ m. ne (sym (Elem-only (rw (lists.1) at m))))

sound_only :
    (b a : Items) (i : ℕ)
    → len b ≡ len a
    → only (differing b a 0) ≡ some i
    → (j : ℕ) → j ≢ i
    → agree (item b j) (item a j) ≡ true
sound_only b a i same h j ne =
    item-differing b a 0 j same
      (λ m. ne (sym (Elem-only (rw (zero-add, only-eq_some (differing b a 0) h) at m))))

-- The recursive calls, as the two lemmas below take them.
abbrev UnderSound : Members → Type 0
UnderSound b =
    (k : Bytes) (w : Value) (path : NodePath)
    → removal_under b k w ≡ some path
    → (v : Value) × (get k b ≡ some v) × Removes path v w

abbrev InSound : Items → Type 0
InSound b =
    (i : ℕ) (w : Value) (path : NodePath)
    → removal_in b i w ≡ some path
    → (v : Value) × (item b i ≡ some v) × Removes path v w

object_sound :
    (b a : Members) (path : NodePath) (d : Difference)
    → UnderSound b
    → adds_key a b ≡ false
    → classify (removed_keys b a) (changed_keys b a) ≡ d
    → by_difference (removal_under b) a d ≡ some path
    → Removes path (object b) (object a)
unfolding by_difference
object_sound b a path (one_removed k) rec fresh e h =
    subst (λ p. Removes p (object b) (object a)) (ground (arith, h)) (sound_removed b a k fresh e)
object_sound b a path (one_changed k) rec fresh e h =
    let (w, found, h') = >>=-eq-some (get k a) _ h in
    let (p, below, last) = >>=-eq-some (removal_under b k w) _ h' in
    let (v, there, inner) = rec k w p below in
    let whole = in_member k b a v w p there found inner (sound_changed b a k fresh e) in
    subst (λ q. Removes q (object b) (object a)) (ground (arith, last)) whole
object_sound b a path other_shape rec fresh e h = cc

array_sound :
    (b a : Items) (path : NodePath)
    → InSound b
    → by_length (removal_in b) b a ≡ some path
    → Removes path (array b) (array a)
unfolding by_length
array_sound b a path rec h = elim (Bool-cases (len b == len a)) [
  | inl same ↦
      let (i, one, h1) = >>=-eq-some (only (differing b a 0)) _ (rw same at h) in
      let (w, found, h2) = >>=-eq-some (item a i) _ h1 in
      let (p, below, last) = >>=-eq-some (removal_in b i w) _ h2 in
      let (v, there, inner) = rec i w p below in
      let whole =
        in_item i b a v w p there found inner
          (sound_only b a i ((==_iff (len b) (len a)).0 same) one) in
      subst (λ q. Removes q (array b) (array a)) (ground (arith, last)) whole
  | inr differ ↦ elim (Bool-cases (len b == len a + 1)) [
    | inl longer ↦
        let (i, first, last) =
          >>=-eq-some (first_removed (len b) 0 b a) _ (rw (differ, longer) at h) in
        let (low, equal) = first_removed_lem (len b) 0 b a i first in
        subst (λ q. Removes q (array b) (array a)) (ground (arith, last))
          (drop_item i b a (omega arith) equal)
    | inr neither ↦ absurd (none-ne-some (rw (differ, neither) at h))
  ]
]

mutual
  unfolding removal_path get item

  path_sound : (b a : Value) (path : NodePath) → removal_path b a ≡ some path → Removes path b a
  path_sound (object b) (object a) path h = elim (Bool-cases (adds_key a b)) [
    | inl new ↦ absurd (none-ne-some (rw (new, removal_path) at h))
    | inr fresh ↦ object_sound b a path _ (under_sound b) fresh refl (rw (fresh, removal_path) at h)
  ]
  path_sound (array b) (array a) path h = array_sound b a path (in_sound b) h
  path_sound _ _ path h = cc

  under_sound : (b : Members) → UnderSound b
  under_sound end k w path h = cc
  under_sound (member j v b) k w path h = elim (Bool-cases (bytes_eq j k)) [
    | inl same ↦ (v, rw same, path_sound v w path (rw (same, removal_under) at h))
    | inr other ↦ rw other (under_sound b k w path (rw (other, removal_under) at h))
  ]

  in_sound : (b : Items) → InSound b
  in_sound nil i w path h = cc
  in_sound (cons v b) zero w path h = (v, refl, path_sound v w path h)
  in_sound (cons v b) (suc i) w path h = in_sound b i w path h

-- When `removal_path` answers with a path, that path leads to one node of the first document, and
-- the second document is the first without it: every other member, and every other element of
-- the arrays on the way, is there in both and equal.
pub removal_path-Removes :
    (b a : Value) (path : NodePath) → removal_path b a ≡ some path → Removes path b a
removal_path-Removes = path_sound
