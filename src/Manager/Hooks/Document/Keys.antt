-- ===== src/Manager/Hooks/Document/Keys.antt =====
-- `Map::insert` and `Map::remove` of serde_json, and `Vec::push`, in a document of src/hooks.rs.
use kaleidoscope_sdk.Prelude.{
  ℕ, suc, ◌+◌, ◌≡◌, refl, sym, ap, ◌∙◌, Bool, true, List, [], ◌∷◌, none, some, bytes_eq,
  bytes_eq_self, Bool-cases, inl, inr, arith, none-ne-some,
}
use kaleidoscope_sdk.JsonSpan.Value.{
  Bytes, Value, Items, nil, cons, Members, end, member, get, item, len, remove_item,
}
use kaleidoscope_sdk.Manager.Hooks.Document.{set_key, swap_remove, indices_where, push}

pub get-set_key : (key : Bytes) (v : Value) (m : Members) → get key (set_key key v m) ≡ some v
unfolding get set_key
get-set_key key v end = rw (bytes_eq_self key) refl
get-set_key key v (member k w m) = elim (Bool-cases (bytes_eq k key)) [
  | inl here ↦ rw here (rw here refl)
  | inr later ↦ rw later (rw later (get-set_key key v m))
]

-- Writing twice is writing the second value.
pub set_key_twice :
    (key : Bytes) (v w : Value) (m : Members) → set_key key w (set_key key v m) ≡ set_key key w m
unfolding set_key
set_key_twice key v w end = rw (bytes_eq_self key) refl
set_key_twice key v w (member k u m) = elim (Bool-cases (bytes_eq k key)) [
  | inl here ↦ rw here (rw here refl)
  | inr later ↦ rw later (rw later (ap (member k u) (set_key_twice key v w m)))
]

-- Writing what is there changes nothing.
pub set_key-get : (key : Bytes) (v : Value) (m : Members) → get key m ≡ some v → set_key key v m ≡ m
unfolding get set_key
set_key-get key v end there = cc
set_key-get key v (member k w m) there = elim (Bool-cases (bytes_eq k key)) [
  | inl here ↦ rw here (ground (arith, here))
  | inr later ↦ rw later (ap (member k w) (set_key-get key v m (rw later at there)))
]

-- A key that is new stands last, so that taking it out again moves nothing.
pub swap_remove-set_key :
    (key : Bytes) (v : Value) (m : Members)
    → get key m ≡ none
    → swap_remove key (set_key key v m) ≡ m
unfolding get set_key swap_remove
swap_remove-set_key key v end missing = rw (bytes_eq_self key) refl
swap_remove-set_key key v (member k w m) missing = elim (Bool-cases (bytes_eq k key)) [
  | inl here ↦ absurd (none-ne-some (sym (rw here at missing)))
  | inr later ↦
      rw later (rw later (ap (member k w) (swap_remove-set_key key v m (rw later at missing))))
]

pub remove_item-push : (xs : Items) (v : Value) → remove_item (push xs v) (len xs) ≡ xs
unfolding push len remove_item
remove_item-push nil v = refl
remove_item-push (cons w xs) v = ap (cons w) (remove_item-push xs v)

pub len-push : (xs : Items) (v : Value) → len (push xs v) ≡ suc (len xs)
unfolding push len
len-push nil v = refl
len-push (cons w xs) v = ap suc (len-push xs v)

pub item-push : (xs : Items) (v : Value) → item (push xs v) (len xs) ≡ some v
unfolding push len item
item-push nil v = refl
item-push (cons w xs) v = item-push xs v

cons-ne-nil : {n : ℕ} {ns : List ℕ} → n ∷ ns ≡ [] → ⊥
cons-ne-nil h = cc

-- Where no value passes the test, only the value that is pushed does.
pub indices_where-push :
    (test : Value → Bool) (v : Value) (at : ℕ) (xs : Items)
    → test v ≡ true
    → indices_where test xs at ≡ []
    → indices_where test (push xs v) at ≡ (at + len xs) ∷ []
unfolding indices_where push len
indices_where-push test v at nil passes none_before = rw passes (ap (λ n. n ∷ []) (omega arith))
indices_where-push test v at (cons w xs) passes none_before = elim (Bool-cases (test w)) [
  | inl here ↦ absurd (cons-ne-nil (rw here at none_before))
  | inr later ↦ rw later (
      indices_where-push test v (at + 1) xs passes (rw later at none_before)
      ∙ ap (λ n. n ∷ []) (omega arith))
]
