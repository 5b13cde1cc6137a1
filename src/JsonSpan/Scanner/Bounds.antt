-- ===== src/JsonSpan/Scanner/Bounds.antt =====
-- Where the cursor of `Scanner` (src/json_span.rs) can stand: it never goes back, and what a method
-- returns lies inside the text.
use kaleidoscope_sdk.Prelude.{
  Option-cases, >>=-eq-some, length, get_elem?-lt, ℕ, zero, suc, ◌+◌, ◌≤◌, ◌<◌, ◌≡◌, inl, inr, some,
  arith,
}
use kaleidoscope_sdk.JsonSpan.Value.{Bytes}
use kaleidoscope_sdk.JsonSpan.Scanner.{
  fuel_for, peek, space_loop, space, eat, string_loop, scan_string, depth_loop, literal_loop,
  value_at, scan_value,
}

module _ (bytes : Bytes) where
  pub peek-lt : (at c : ℕ) → peek bytes at ≡ some c → at < length bytes
  unfolding peek
  peek-lt at c h = get_elem?-lt bytes at h

  space_loop_bounds :
      (fuel at : ℕ)
      → at ≤ length bytes
      → (at ≤ space_loop bytes fuel at) × (space_loop bytes fuel at ≤ length bytes)
  unfolding space_loop
  space_loop_bounds zero at h = omega arith
  space_loop_bounds (suc fuel) at h = elim (Option-cases (peek bytes at)) [
    | inl out ↦ rw (out, space_loop) (omega arith)
    | inr (c, e) ↦ ground (arith, e, peek-lt at c, space_loop_bounds fuel (at + 1))
  ]

  pub space_bounds :
      (at : ℕ) → at ≤ length bytes → (at ≤ space bytes at) × (space bytes at ≤ length bytes)
  unfolding space
  space_bounds at h = space_loop_bounds (fuel_for bytes) at h

  pub eat_lem : (c at p : ℕ) → eat bytes c at ≡ some p → (p ≡ at + 1) × (at < length bytes)
  unfolding eat
  eat_lem c at p h = elim (Option-cases (peek bytes at)) [
    | inl out ↦ ground arith
    | inr (d, e) ↦ ground (arith, peek-lt at d e)
  ]

  pub eat-peek : (c at p : ℕ) → eat bytes c at ≡ some p → peek bytes at ≡ some c
  unfolding eat
  eat-peek c at p h = elim (Option-cases (peek bytes at)) [
    | inl out ↦ ground arith
    | inr (d, e) ↦ ground (arith, e)
  ]

  string_loop_bounds :
      (fuel at p : ℕ) → string_loop bytes fuel at ≡ some p → (at < p) × (p ≤ length bytes)
  unfolding string_loop
  string_loop_bounds zero at p h = cc
  string_loop_bounds (suc fuel) at p h = elim (Option-cases (peek bytes at)) [
    | inl out ↦ ground arith
    | inr (c, e) ↦ ground (
      arith,
      peek-lt at c e,
      string_loop_bounds fuel (at + 1) p,
      string_loop_bounds fuel (at + 2) p,
    )
  ]

  pub scan_string_bounds :
      (at p : ℕ) → scan_string bytes at ≡ some p → (at + 1 < p) × (p ≤ length bytes)
  unfolding scan_string
  scan_string_bounds at p h =
      let (q, e, f) = >>=-eq-some (eat bytes b'"' at) _ h in
      omega (arith, eat_lem b'"' at q e, string_loop_bounds (fuel_for bytes) q p f)

  depth_loop_bounds :
      (fuel opener closer depth at p : ℕ)
      → at ≤ length bytes
      → depth_loop bytes fuel opener closer depth at ≡ some p
      → (at ≤ p) × (p ≤ length bytes)
  unfolding depth_loop
  depth_loop_bounds zero o c depth at p l h = cc
  depth_loop_bounds (suc fuel) o c zero at p l h = ground arith
  depth_loop_bounds (suc fuel) o c (suc depth) at p l h = elim (Option-cases (peek bytes at)) [
    | inl out ↦ ground arith
    | inr (x, e) ↦ elim (Option-cases (scan_string bytes at)) [
      | inl broken ↦ ground (
        arith,
        peek-lt at x e,
        depth_loop_bounds fuel o c (suc (suc depth)) (at + 1) p,
        depth_loop_bounds fuel o c depth (at + 1) p,
        depth_loop_bounds fuel o c (suc depth) (at + 1) p,
      )
      | inr (q, f) ↦ ground (
        arith,
        peek-lt at x e,
        scan_string_bounds at q f,
        depth_loop_bounds fuel o c (suc (suc depth)) (at + 1) p,
        depth_loop_bounds fuel o c depth (at + 1) p,
        depth_loop_bounds fuel o c (suc depth) (at + 1) p,
        depth_loop_bounds fuel o c (suc depth) q p,
      )
    ]
  ]

  literal_loop_bounds :
      (fuel at : ℕ)
      → at ≤ length bytes
      → (at ≤ literal_loop bytes fuel at) × (literal_loop bytes fuel at ≤ length bytes)
  unfolding literal_loop
  literal_loop_bounds zero at h = omega arith
  literal_loop_bounds (suc fuel) at h = elim (Option-cases (peek bytes at)) [
    | inl out ↦ rw (out, literal_loop) (omega arith)
    | inr (c, e) ↦ ground (arith, e, peek-lt at c, literal_loop_bounds fuel (at + 1))
  ]

  value_at_bounds :
      (c at p : ℕ)
      → at < length bytes
      → value_at bytes c at ≡ some p
      → (at ≤ p) × (p ≤ length bytes)
  unfolding value_at
  value_at_bounds c at p l h = ground (
    arith,
    scan_string_bounds at p,
    literal_loop_bounds (fuel_for bytes) at,
    depth_loop_bounds (suc (fuel_for bytes)) b'{' b'}' 1 (at + 1) p,
    depth_loop_bounds (suc (fuel_for bytes)) b'[' b']' 1 (at + 1) p,
  )

  pub scan_value_bounds :
      (at p : ℕ) → at ≤ length bytes → scan_value bytes at ≡ some p → (at ≤ p) × (p ≤ length bytes)
  unfolding scan_value
  scan_value_bounds at p l h =
      let (c, e, f) = >>=-eq-some (peek bytes (space bytes at)) _ h in
      omega (
        arith,
        space_bounds at l,
        value_at_bounds c (space bytes at) p (peek-lt (space bytes at) c e) f,
      )
