-- ===== src/JsonSpan/Scanner/Runs.antt =====
-- The loops of `Scanner::string` and `Scanner::value` (src/json_span.rs) as relations, round by round
-- and without fuel: from a cursor, the loop ends with a result. A loop that goes round for ever is in
-- no such relation to anything.
use kaleidoscope_sdk.Prelude.{
  Bool-cases, Option-cases, length, ◌==◌, ℕ, zero, suc, ◌+◌, ◌≤◌, ◌<◌, ◌≡◌, inl, inr, true, false,
  Option, none, some, arith,
}
use kaleidoscope_sdk.JsonSpan.Value.{Bytes}
use kaleidoscope_sdk.JsonSpan.Scanner.{peek, string_loop, scan_string, depth_loop}
use kaleidoscope_sdk.JsonSpan.Scanner.Bounds.{peek-lt, scan_string_bounds}

-- Inside a string literal: a backslash takes the next byte with it, a quote closes.
pub data StringEnds (bytes : Bytes) : ℕ → Option ℕ → Type 0 where
  unclosed : {at : ℕ} → peek bytes at ≡ none → StringEnds bytes at none
  escape :
      {at : ℕ} {r : Option ℕ}
      → peek bytes at ≡ some 0x5C
      → StringEnds bytes (at + 2) r
      → StringEnds bytes at r
  quote : {at : ℕ} → peek bytes at ≡ some b'"' → StringEnds bytes at (some (at + 1))
  plain :
      {at c : ℕ} {r : Option ℕ}
      → peek bytes at ≡ some c
      → (c == 0x5C) ≡ false
      → (c == b'"') ≡ false
      → StringEnds bytes (at + 1) r
      → StringEnds bytes at r

-- Inside brackets, with the number of those still open: a string literal is passed as a whole.
pub data DepthEnds (bytes : Bytes) (opener closer : ℕ) : ℕ → ℕ → Option ℕ → Type 0 where
  closed : {at : ℕ} → DepthEnds bytes opener closer 0 at (some at)
  unclosed :
      {depth at : ℕ} → peek bytes at ≡ none → DepthEnds bytes opener closer (suc depth) at none
  broken :
      {depth at : ℕ}
      → peek bytes at ≡ some b'"'
      → scan_string bytes at ≡ none
      → DepthEnds bytes opener closer (suc depth) at none
  literal :
      {depth at past : ℕ} {r : Option ℕ}
      → peek bytes at ≡ some b'"'
      → scan_string bytes at ≡ some past
      → DepthEnds bytes opener closer (suc depth) past r
      → DepthEnds bytes opener closer (suc depth) at r
  opens :
      {depth at c : ℕ} {r : Option ℕ}
      → peek bytes at ≡ some c
      → (c == b'"') ≡ false
      → (c == opener) ≡ true
      → DepthEnds bytes opener closer (suc (suc depth)) (at + 1) r
      → DepthEnds bytes opener closer (suc depth) at r
  closes :
      {depth at c : ℕ} {r : Option ℕ}
      → peek bytes at ≡ some c
      → (c == b'"') ≡ false
      → (c == opener) ≡ false
      → (c == closer) ≡ true
      → DepthEnds bytes opener closer depth (at + 1) r
      → DepthEnds bytes opener closer (suc depth) at r
  passes :
      {depth at c : ℕ} {r : Option ℕ}
      → peek bytes at ≡ some c
      → (c == b'"') ≡ false
      → (c == opener) ≡ false
      → (c == closer) ≡ false
      → DepthEnds bytes opener closer (suc depth) (at + 1) r
      → DepthEnds bytes opener closer (suc depth) at r

test-eq : (c d : ℕ) → (c == d) ≡ true → c ≡ d
test-eq c d h = ground (arith, h)

module _ (bytes : Bytes) where
  past_end : (at : ℕ) → length bytes ≤ at → peek bytes at ≡ none
  past_end at beyond = elim (Option-cases (peek bytes at)) [
    | inl out ↦ out
    | inr (c, e) ↦ absurd (omega (arith, peek-lt bytes at c e))
  ]

  -- The loop over a string literal ends wherever it starts, in the way that its rounds say, if the fuel
  -- exceeds the bytes that are left.
  pub string_loop-StringEnds :
      (fuel at : ℕ) → length bytes < at + fuel → StringEnds bytes at (string_loop bytes fuel at)
  unfolding string_loop
  string_loop-StringEnds zero at enough = unclosed (past_end at (omega arith))
  string_loop-StringEnds (suc fuel) at enough = elim (Option-cases (peek bytes at)) [
    | inl out ↦ rw (out, string_loop) (unclosed out)
    | inr (c, e) ↦
        rw (e, string_loop)
          (elim (Bool-cases (c == 0x5C)) [
            | inl backslash ↦ rw backslash (
                escape (rw (← test-eq c 0x5C backslash) e)
                  (string_loop-StringEnds fuel (at + 2) (omega arith)))
            | inr other ↦ rw other (elim (Bool-cases (c == b'"')) [
              | inl closing ↦ rw closing (quote (rw (← test-eq c b'"' closing) e))
              | inr inside ↦
                  rw inside
                    (plain e other inside (string_loop-StringEnds fuel (at + 1) (omega arith)))
            ])
          ])
  ]

  -- The loop over nested brackets ends, at any depth and from any cursor in the text, in the way that its
  -- rounds say, if the fuel exceeds the bytes that are left by more than one.
  pub depth_loop-DepthEnds :
      (fuel opener closer depth at : ℕ)
      → length bytes + 1 < at + fuel
      → at ≤ length bytes
      → DepthEnds bytes opener closer depth at (depth_loop bytes fuel opener closer depth at)
  unfolding depth_loop
  depth_loop-DepthEnds zero o c depth at enough inside = absurd (omega arith)
  depth_loop-DepthEnds (suc fuel) o c zero at enough inside = closed
  depth_loop-DepthEnds (suc fuel) o c (suc depth) at enough inside =
      elim (Option-cases (peek bytes at)) [
        | inl out ↦ rw (out, depth_loop) (unclosed out)
        | inr (x, e) ↦
            rw (e, depth_loop)
              (elim (Bool-cases (x == b'"')) [
                | inl quoted ↦ rw quoted (elim (Option-cases (scan_string bytes at)) [
                  | inl bad ↦ rw bad (broken (rw (← test-eq x b'"' quoted) e) bad)
                  | inr (past, f) ↦ rw f (
                      literal (rw (← test-eq x b'"' quoted) e) f (
                        depth_loop-DepthEnds fuel o c (suc depth) past
                          (omega (arith, scan_string_bounds bytes at past f))
                          (omega (arith, scan_string_bounds bytes at past f))))
                ])
                | inr unquoted ↦ rw unquoted (elim (Bool-cases (x == o)) [
                  | inl another ↦ rw another (
                      opens e unquoted another (
                        depth_loop-DepthEnds fuel o c (suc (suc depth)) (at + 1) (omega arith)
                          (omega (arith, peek-lt bytes at x e))))
                  | inr other ↦ rw other (elim (Bool-cases (x == c)) [
                    | inl close ↦ rw close (
                        closes e unquoted other close (
                          depth_loop-DepthEnds fuel o c depth (at + 1) (omega arith)
                            (omega (arith, peek-lt bytes at x e))))
                    | inr rest ↦ rw rest (
                        passes e unquoted other rest (
                          depth_loop-DepthEnds fuel o c (suc depth) (at + 1) (omega arith)
                            (omega (arith, peek-lt bytes at x e))))
                  ])
                ])
              ])
      ]
