-- ===== src/JsonSpan/Excise/Sound.antt =====
-- What `excise` of src/json_span.rs promises its callers in hooks.rs and host.rs.
use kaleidoscope_sdk.Prelude.{
  >>=-eq-some, require-eq-some, length, take, drop, length-drop, ℕ, zero, suc, ◌-◌, ◌≤◌, ◌<◌, ◌≡◌,
  refl, sym, ap, ◌∙◌, true, false, not, some, List, [], ◌∷◌, ◌++◌, arith,
}
use kaleidoscope_sdk.JsonSpan.Value.{Bytes, Value, value_eq}
use kaleidoscope_sdk.JsonSpan.Removal.{NodePath, removal_path}
use kaleidoscope_sdk.JsonSpan.Removal.Sound.{Removes, removal_path-Removes}
use kaleidoscope_sdk.JsonSpan.Enter.{Serde, slice}
use kaleidoscope_sdk.JsonSpan.Excise.{span_of, excise}
use kaleidoscope_sdk.JsonSpan.Excise.Bounds.{span_of_bounds}

take-all {ℓ} : {A : Type ℓ} (n : ℕ) (xs : List A) → length xs ≤ n → take n xs ≡ xs
take-all zero [] h = refl
take-all zero (x ∷ xs) h = absurd (omega arith)
take-all (suc n) [] h = refl
take-all (suc n) (x ∷ xs) h = rw (take-all n xs (omega arith))

slice_lem :
    (text : Bytes) (a b : ℕ) (part : Bytes)
    → slice text a b ≡ some part
    → part ≡ take (b - a) (drop a text)
unfolding slice
slice_lem text a b part h = ground arith

-- Everything that an answer of `excise` rests on: the two documents differ, the path is that of the
-- one node that `after` lacks, the answer is the text without the bytes from `start` to `finish`,
-- which lie inside the text, and the answer parses to a document equal to `after`.
pub record IsExcision (serde : Serde) (text : Bytes) (before after : Value) (out : Bytes)
    : Type 0 where
  pub differ : value_eq before after ≡ false
  pub path : NodePath
  pub removes : Removes path before after
  pub start : ℕ
  pub finish : ℕ
  pub span : span_of serde text path ≡ some (start, finish)
  pub ordered : start ≤ finish
  pub bounded : finish < length text
  pub cut : out ≡ take start text ++ drop finish text
  pub reparsed : Value
  pub parses : serde.parse out ≡ some reparsed
  pub equal : value_eq reparsed after ≡ true

module _ (serde : Serde) (text : Bytes) (before after : Value) where
  -- An answer of `excise` is a sound excision: the text with one range of bytes cut out and all
  -- others kept in place, which parses to the caller's `after` document.
  pub excise-IsExcision :
      (out : Bytes)
      → excise serde text before after ≡ some out
      → IsExcision serde text before after out
  unfolding excise
  excise-IsExcision out h0 =
      let (new, h1) = require-eq-some (not (value_eq before after)) _ h0 in
      let (path, e, h2) = >>=-eq-some (removal_path before after) _ h1 in
      let ((start, finish), f, h3) = >>=-eq-some (span_of serde text path) _ h2 in
      let (head, g, h4) = >>=-eq-some (slice text 0 start) _ h3 in
      let (tail, k, h5) = >>=-eq-some (slice text finish (length text)) _ h4 in
      let (reparsed, m, h6) = >>=-eq-some (serde.parse (head ++ tail)) _ h5 in
      let (equal, last) = require-eq-some (value_eq reparsed after) _ h6 in
      let same : head ++ tail ≡ out = ground (arith, last) in
      let (hit, _, low, mid, high, top) = span_of_bounds serde text path start finish f in
      let front : head ≡ take start text = ground (arith, slice_lem text 0 start head g) in
      let back : tail ≡ drop finish text =
        slice_lem text finish (length text) tail k
        ∙ take-all (length text - finish) (drop finish text)
            (omega (arith, length-drop finish text)) in
      record {
        differ = ground (arith, new);
        path = path;
        removes = removal_path-Removes before after path e;
        start = start;
        finish = finish;
        span = f;
        ordered = mid;
        bounded = omega arith;
        cut = cc (same, front, back);
        reparsed = reparsed;
        parses = ap serde.parse (sym same) ∙ m;
        equal = equal;
      }
