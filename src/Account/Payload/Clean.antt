-- ===== src/Account/Payload/Clean.antt =====
-- A JSON value that holds nothing that src/account/protocol.rs forbids, described by what is in it.
use kaleidoscope_sdk.Prelude.{
  Bool-cases, any, bytes_eq, bytes_eq_self, Text, ℕ, ◌≡◌, ◌≢◌, refl, sym, ◌∙◌, Bool, true, false,
  not, List, [], ◌∷◌, starts_with, inl, inr, arith,
}
use kaleidoscope_sdk.JsonSpan.Value.{
  Bytes, Value, string, array, object, Items, cons, Members, member,
}
use kaleidoscope_sdk.Account.Model.{looks_like_absolute_path}
use kaleidoscope_sdk.Account.Payload.{forbidden, normalized, is_forbidden, value_allowed}

pub data ItemOf (v : Value) : Items → Type 0 where
  first : {xs : Items} → ItemOf v (cons v xs)
  later : {w : Value} {xs : Items} → ItemOf v xs → ItemOf v (cons w xs)

pub data MemberOf (k : Bytes) (v : Value) : Members → Type 0 where
  first : {m : Members} → MemberOf k v (member k v m)
  later : {j : Bytes} {w : Value} {m : Members} → MemberOf k v m → MemberOf k v (member j w m)

-- A value at any depth of another.
pub data Within (w : Value) : Value → Type 0 where
  here : Within w w
  in_array : {v : Value} {xs : Items} → ItemOf v xs → Within w v → Within w (array xs)
  in_object :
      {k : Bytes} {v : Value} {m : Members} → MemberOf k v m → Within w v → Within w (object m)

-- None of the words.
abbrev pub Avoids : Text → List Text → Type 0
Avoids t [] = Unit {0}
Avoids t (word ∷ words) = (t ≢ word) × Avoids t words

-- Neither a rooted path, nor one in the home directory, on a share or on a drive.
pub record IsNoPath (t : Text) : Type 0 where
  pub rooted : (rest : Text) → t ≢ b'/' ∷ rest
  pub home : (rest : Text) → t ≢ b'~' ∷ b'/' ∷ rest
  pub share : (rest : Text) → t ≢ 0x5C ∷ 0x5C ∷ rest
  pub drive : (c : ℕ) (rest : Text) → t ≢ c ∷ b':' ∷ b'/' ∷ rest
  pub drive_back : (c : ℕ) (rest : Text) → t ≢ c ∷ b':' ∷ 0x5C ∷ rest

-- No key at any depth is a forbidden word, by its letters and digits in lower case, and no string at any
-- depth is a path.
pub record IsClean (v : Value) : Type 0 where
  pub keys :
      {k : Bytes} {u : Value} {m : Members}
      → Within (object m) v
      → MemberOf k u m
      → Avoids (normalized k) forbidden
  pub strings : {t : Text} → Within (string t) v → IsNoPath t

true-ne-false : true ≡ false → ⊥
true-ne-false h = cc

any-Avoids :
    (t : Text) (words : List Text) → any (λ word. bytes_eq word t) words ≡ false → Avoids t words
any-Avoids t [] h = tt
any-Avoids t (word ∷ words) h = elim (Bool-cases (bytes_eq word t)) [
  | inl same ↦ absurd (ground (arith, same))
  | inr other ↦ (
    λ e. true-ne-false (sym (rw e (bytes_eq_self word)) ∙ other),
    any-Avoids t words (ground (arith, other)),
  )
]

looks_like_absolute_path-IsNoPath : (t : Text) → looks_like_absolute_path t ≡ false → IsNoPath t
unfolding looks_like_absolute_path starts_with
looks_like_absolute_path-IsNoPath t h = record {
  rooted = λ rest e. true-ne-false (rw e at h);
  home = λ rest e. true-ne-false (rw e at h);
  share = λ rest e. true-ne-false (rw e at h);
  drive = λ c rest e. drive_slash c rest (rw e at h);
  drive_back = λ c rest e. drive_backslash c rest (rw e at h);
}
  where
    drive_slash :
        (c : ℕ) (rest : Text) → looks_like_absolute_path (c ∷ b':' ∷ b'/' ∷ rest) ≡ false → ⊥
    drive_slash c rest e = ground (arith, e)

    drive_backslash :
        (c : ℕ) (rest : Text) → looks_like_absolute_path (c ∷ b':' ∷ 0x5C ∷ rest) ≡ false → ⊥
    drive_backslash c rest e = ground (arith, e)

ItemOf-value_allowed :
    {v : Value} {xs : Items}
    → ItemOf v xs
    → value_allowed (array xs) ≡ true
    → value_allowed v ≡ true
unfolding value_allowed
ItemOf-value_allowed first h = ground (arith, h)
ItemOf-value_allowed {xs = cons w xs} (later i) h = ItemOf-value_allowed i (ground (arith, h))

MemberOf-value_allowed :
    {k : Bytes} {v : Value} {m : Members}
    → MemberOf k v m
    → value_allowed (object m) ≡ true
    → (is_forbidden k ≡ false) × (value_allowed v ≡ true)
unfolding value_allowed
MemberOf-value_allowed first h = ground (arith, h)
MemberOf-value_allowed {m = member j w m} (later i) h = MemberOf-value_allowed i (ground (arith, h))

Within-value_allowed : {w v : Value} → Within w v → value_allowed v ≡ true → value_allowed w ≡ true
Within-value_allowed here h = h
Within-value_allowed (in_array i r) h = Within-value_allowed r (ItemOf-value_allowed i h)
Within-value_allowed (in_object i r) h = Within-value_allowed r (MemberOf-value_allowed i h).1

-- A value that the guard lets pass holds nothing forbidden at any depth.
pub value_allowed-IsClean : (v : Value) → value_allowed v ≡ true → IsClean v
unfolding value_allowed is_forbidden
value_allowed-IsClean v h = record {
  keys = λ {k} {u} {m} within there.
      any-Avoids (normalized k) forbidden
        (MemberOf-value_allowed there (Within-value_allowed within h)).0;
  strings = λ {t} within.
      looks_like_absolute_path-IsNoPath t
        (not_true (looks_like_absolute_path t) (Within-value_allowed within h));
}
  where
    not_true : (b : Bool) → not b ≡ true → b ≡ false
    not_true true e = cc
    not_true false e = refl
