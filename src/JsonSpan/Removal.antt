-- ===== src/JsonSpan/Removal.antt =====
-- src/json_span.rs, `Segment` and `removal_path`: which single node one document lacks beside
-- another.
pub mod Sound
use kaleidoscope_sdk.Prelude.{
  ◌==◌, if◌then◌else◌, bytes_eq, ℕ, zero, suc, ◌+◌, Bool, true, false, not, ◌||◌, Option, none,
  some, List, [], ◌∷◌, ◌>>=◌,
}
use kaleidoscope_sdk.JsonSpan.Value.{
  Bytes, Value, array, object, Items, nil, cons, Members, end, member, get, contains_key, len, item,
  remove_item, value_eq, items_eq,
}

pub data Segment : Type 0 where
  key : Bytes → Segment
  index : ℕ → Segment

abbrev pub NodePath : Type 0
NodePath = List Segment

-- `a.keys().any(|key| !b.contains_key(key))`
unfoldable pub adds_key : Members → Members → Bool
adds_key end b = false
adds_key (member k v a) b = not (contains_key k b) || adds_key a b

-- `b.keys().filter(|key| !a.contains_key(*key))`
unfoldable pub removed_keys : Members → Members → List Bytes
removed_keys end a = []
removed_keys (member k v b) a =
    let rest = removed_keys b a in if contains_key k a then rest else k ∷ rest

-- `a.get(*key).is_some_and(|other| other != *value)`
unfoldable pub is_changed : Value → Option Value → Bool
is_changed v none = false
is_changed v (some w) = not (value_eq v w)

unfoldable pub changed_keys : Members → Members → List Bytes
unfolding is_changed
changed_keys end a = []
changed_keys (member k v b) a =
    let rest = changed_keys b a in if is_changed v (get k a) then k ∷ rest else rest

-- `(removed.len(), changed.len())` with the key that it singles out.
pub data Difference : Type 0 where
  one_removed : Bytes → Difference
  one_changed : Bytes → Difference
  other_shape : Difference

unfoldable pub classify : List Bytes → List Bytes → Difference
classify (k ∷ []) [] = one_removed k
classify [] (k ∷ []) = one_changed k
classify _ _ = other_shape

-- `(0..b.len()).filter(|index| b[*index] != a[*index])`, for arrays of one length, from an offset.
unfoldable pub differing : Items → Items → ℕ → List ℕ
differing (cons v xs) (cons w ys) i =
    let rest = differing xs ys (i + 1) in if value_eq v w then rest else i ∷ rest
differing _ _ i = []

unfoldable pub only : List ℕ → Option ℕ
only (i ∷ []) = some i
only _ = none

-- The `find_map` over `0..b.len()`, with the number of indices left.
unfoldable pub first_removed : ℕ → ℕ → Items → Items → Option ℕ
first_removed zero i b a = none
first_removed (suc n) i b a = elim (items_eq (remove_item b i) a) [
  | true ↦ some i
  | false ↦ first_removed n (i + 1) b a
]

-- Two objects, by the `match` on the two lengths; `under` is the call on `b.get(&key)?`.
unfoldable pub by_difference :
    (Bytes → Value → Option NodePath) → Members → Difference → Option NodePath
by_difference under a (one_removed k) = some (key k ∷ [])
by_difference under a (one_changed k) = get k a >>= λ w. under k w >>= λ path. some (key k ∷ path)
by_difference under a other_shape = none

-- Two arrays: one element changed, or one element fewer; `inside` is the call on `&b[index]`.
unfoldable pub by_length : (ℕ → Value → Option NodePath) → Items → Items → Option NodePath
by_length inside b a =
    if len b == len a
    then (only (differing b a 0) >>= λ i.
        item a i >>= λ w. inside i w >>= λ path. some (index i ∷ path))
    else if len b == len a + 1
    then (first_removed (len b) 0 b a >>= λ i. some (index i ∷ []))
    else none

unfoldable mutual
  pub removal_path : Value → Value → Option NodePath
  removal_path (object b) (object a) =
      if adds_key a b
      then none
      else by_difference (removal_under b) a (classify (removed_keys b a) (changed_keys b a))
  removal_path (array b) (array a) = by_length (removal_in b) b a
  removal_path _ _ = none

  pub removal_under : Members → Bytes → Value → Option NodePath
  removal_under end k w = none
  removal_under (member j v b) k w = elim (bytes_eq j k) [
    | true ↦ removal_path v w
    | false ↦ removal_under b k w
  ]

  pub removal_in : Items → ℕ → Value → Option NodePath
  removal_in nil i w = none
  removal_in (cons v xs) zero w = removal_path v w
  removal_in (cons v xs) (suc i) w = removal_in xs i w
