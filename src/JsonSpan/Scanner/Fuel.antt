-- ===== src/JsonSpan/Scanner/Fuel.antt =====
-- The loops of `Scanner` (src/json_span.rs) over white space and over a number or a word: with fuel for
-- the bytes that are left, more fuel changes no answer.
use kaleidoscope_sdk.Prelude.{
  Option-cases, length, ℕ, zero, suc, ◌+◌, ◌≤◌, ◌<◌, ◌≡◌, refl, inl, inr, arith,
}
use kaleidoscope_sdk.JsonSpan.Value.{Bytes}
use kaleidoscope_sdk.JsonSpan.Scanner.{peek, space_loop, literal_loop}
use kaleidoscope_sdk.JsonSpan.Scanner.Bounds.{peek-lt}

module _ (bytes : Bytes) where
  pub space_loop-fuel :
      (f g at : ℕ)
      → length bytes < at + f
      → length bytes < at + g
      → at ≤ length bytes
      → space_loop bytes f at ≡ space_loop bytes g at
  unfolding space_loop
  space_loop-fuel zero g at p q l = absurd (omega arith)
  space_loop-fuel (suc f) zero at p q l = absurd (omega arith)
  space_loop-fuel (suc f) (suc g) at p q l = elim (Option-cases (peek bytes at)) [
    | inl out ↦ rw (out, space_loop) refl
    | inr (c, e) ↦ ground (arith, e, peek-lt bytes at c, space_loop-fuel f g (at + 1))
  ]

  pub literal_loop-fuel :
      (f g at : ℕ)
      → length bytes < at + f
      → length bytes < at + g
      → at ≤ length bytes
      → literal_loop bytes f at ≡ literal_loop bytes g at
  unfolding literal_loop
  literal_loop-fuel zero g at p q l = absurd (omega arith)
  literal_loop-fuel (suc f) zero at p q l = absurd (omega arith)
  literal_loop-fuel (suc f) (suc g) at p q l = elim (Option-cases (peek bytes at)) [
    | inl out ↦ rw (out, literal_loop) refl
    | inr (c, e) ↦ ground (arith, e, peek-lt bytes at c, literal_loop-fuel f g (at + 1))
  ]
