-- ===== src/JsonSpan/Scanner/Literal.antt =====
-- `Scanner::string` of src/json_span.rs on a string literal as JSON writes it.
use native.Mathlib.Numerals.{add-one, add-two}
use kaleidoscope_sdk.Prelude.{
  Bool-cases, ◌==◌, length, get_elem?, drop, length-append, length-drop, ℕ, zero, suc, ◌+◌, ◌≤◌,
  ◌<◌, ◌≡◌, refl, ap, inl, inr, Bool, true, false, not, ◌&&◌, some, [], ◌∷◌, ◌++◌, arith,
}
use kaleidoscope_sdk.JsonSpan.Value.{Bytes}
use kaleidoscope_sdk.JsonSpan.Scanner.{fuel_for, string_loop, peek, eat, scan_string}

-- The interior of a literal: no bare quote, and every backslash has a byte behind it.
unfoldable pub is_body : Bytes → Bool
is_body [] = true
is_body (c ∷ []) = not (c == b'"') && not (c == 0x5C)
is_body (c ∷ d ∷ cs) = elim (c == 0x5C) [
  | true ↦ is_body cs
  | false ↦ elim (c == b'"') [ true ↦ false | false ↦ is_body (d ∷ cs) ]
]

drop-cons :
    (bytes : Bytes) (at c : ℕ) (cs : Bytes)
    → drop at bytes ≡ c ∷ cs
    → (get_elem? bytes at ≡ some c) × (drop (suc at) bytes ≡ cs) × (at < length bytes)
drop-cons [] zero c cs h = cc
drop-cons [] (suc at) c cs h = cc
drop-cons (x ∷ xs) zero c cs h = ground arith
drop-cons (x ∷ xs) (suc at) c cs h = let (e, f, l) = drop-cons xs at c cs h in (e, f, omega arith)

module _ (bytes : Bytes) where
  loop_body :
      (body : Bytes) (fuel at : ℕ) (rest : Bytes)
      → length body < fuel
      → is_body body ≡ true
      → drop at bytes ≡ body ++ b'"' ∷ rest
      → string_loop bytes fuel at ≡ some (at + length body + 1)
  unfolding string_loop is_body peek
  loop_body [] zero at rest l b h = absurd (omega arith)
  loop_body [] (suc fuel) at rest l b h =
      let (e, f, _) = drop-cons bytes at b'"' rest h in ground (arith, e)
  loop_body (c ∷ cs) zero at rest l b h = absurd (omega arith)
  loop_body (c ∷ []) (suc fuel) at rest l b h =
      let (e, f, _) = drop-cons bytes at c (b'"' ∷ rest) h in
      let next : drop (at + 1) bytes ≡ b'"' ∷ rest = rw add-one f in
      ground (arith, e, b, loop_body [] fuel (at + 1) rest (omega arith) refl next)
  loop_body (c ∷ d ∷ cs) (suc fuel) at rest l b h =
      let (e, f, _) = drop-cons bytes at c (d ∷ cs ++ b'"' ∷ rest) h in
      let (e', f', _) = drop-cons bytes (suc at) d (cs ++ b'"' ∷ rest) f in
      let next : drop (at + 1) bytes ≡ d ∷ cs ++ b'"' ∷ rest = rw add-one f in
      let after : drop (at + 2) bytes ≡ cs ++ b'"' ∷ rest = rw add-two f' in
      elim (Bool-cases (c == 0x5C)) [
        | inl escape ↦ ground (
          arith,
          e,
          escape,
          loop_body cs fuel (at + 2) rest (omega arith) (ground (arith, b, escape)) after,
        )
        | inr plain ↦ ground (
          arith,
          e,
          plain,
          b,
          loop_body (d ∷ cs) fuel (at + 1) rest (omega arith) (ground (arith, b, plain)) next,
        )
      ]

  length-of_drop :
      (at : ℕ) (part rest : Bytes) → drop at bytes ≡ part ++ rest → length part ≤ length bytes
  length-of_drop at part rest h =
      omega (arith, ap length h, length-append part rest, length-drop at bytes)

  -- Where the text goes on with a string literal, that is a quote, an interior with no bare quote
  -- and no dangling backslash, and a quote, the method stops directly behind the closing quote.
  pub scan_string-literal :
      (at : ℕ) (body rest : Bytes)
      → is_body body ≡ true
      → drop at bytes ≡ b'"' ∷ body ++ b'"' ∷ rest
      → scan_string bytes at ≡ some (at + length body + 2)
  unfolding scan_string eat peek
  scan_string-literal at body rest b h =
      let (e, f, _) = drop-cons bytes at b'"' (body ++ b'"' ∷ rest) h in
      let next : drop (at + 1) bytes ≡ body ++ b'"' ∷ rest = rw add-one f in
      let fits = length-of_drop (at + 1) body (b'"' ∷ rest) next in
      ground (arith, e, loop_body body (fuel_for bytes) (at + 1) rest (omega (arith, fits)) b next)
