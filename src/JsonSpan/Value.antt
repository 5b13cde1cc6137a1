-- ===== src/JsonSpan/Value.antt =====
-- The documents that src/json_span.rs compares: `serde_json::Value` with the feature
-- `preserve_order`, so an object is a list of members in document order, and two objects are equal
-- when they hold equal values under the same keys, in any order. A number is a code that stands
-- for the library's `Number`, which the code only compares. Texts are their UTF-8 bytes.
use kaleidoscope_sdk.Prelude.{
  ◌==◌, if◌then◌else◌, bytes_eq, ℕ, zero, suc, Bool, true, false, ◌&&◌, Option, none, some, List,
}

abbrev pub Bytes : Type 0
Bytes = List ℕ

mutual
  pub data Value : Type 0 where
    null : Value
    bool : Bool → Value
    number : ℕ → Value
    string : Bytes → Value
    array : Items → Value
    object : Members → Value

  pub data Items : Type 0 where
    nil : Items
    cons : Value → Items → Items

  pub data Members : Type 0 where
    end : Members
    member : Bytes → Value → Members → Members

-- `Map::get`
unfoldable pub get : Bytes → Members → Option Value
get k end = none
get k (member j v m) = if bytes_eq j k then some v else get k m

-- `Map::contains_key`
unfoldable pub contains_key : Bytes → Members → Bool
unfolding get
contains_key k m = elim (get k m) [ none ↦ false | some v ↦ true ]

-- `Map::len`
unfoldable pub member_count : Members → ℕ
member_count end = 0
member_count (member k v m) = suc (member_count m)

-- `Vec::len`
unfoldable pub len : Items → ℕ
len nil = 0
len (cons v xs) = suc (len xs)

-- The bounds-checked `values[index]`.
unfoldable pub item : Items → ℕ → Option Value
item nil i = none
item (cons v xs) zero = some v
item (cons v xs) (suc i) = item xs i

-- `Vec::remove` at an index inside.
unfoldable pub remove_item : Items → ℕ → Items
remove_item nil i = nil
remove_item (cons v xs) zero = xs
remove_item (cons v xs) (suc i) = cons v (remove_item xs i)

abbrev bool_eq : Bool → Bool → Bool
bool_eq true b = b
bool_eq false true = false
bool_eq false false = true

-- `==` on values. The members of an object are looked up in the other one.
unfoldable mutual
  pub value_eq : Value → Value → Bool
  value_eq null null = true
  value_eq (bool a) (bool b) = bool_eq a b
  value_eq (number a) (number b) = a == b
  value_eq (string a) (string b) = bytes_eq a b
  value_eq (array xs) (array ys) = items_eq xs ys
  value_eq (object m) (object n) = member_count m == member_count n && members_eq m n
  value_eq _ _ = false

  pub items_eq : Items → Items → Bool
  items_eq nil nil = true
  items_eq (cons v xs) (cons w ys) = value_eq v w && items_eq xs ys
  items_eq _ _ = false

  pub members_eq : Members → Members → Bool
  members_eq end n = true
  members_eq (member k v m) n = elim (get k n) [
    | none ↦ false
    | some w ↦ value_eq v w && members_eq m n
  ]
