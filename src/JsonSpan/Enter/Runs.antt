-- ===== src/JsonSpan/Enter/Runs.antt =====
-- The loop of `Scanner::enter` (src/json_span.rs) as a relation, round by round and without fuel.
use kaleidoscope_sdk.Prelude.{
  Bool-cases, Option-cases, length, ◌==◌, ℕ, zero, suc, ◌+◌, ◌≤◌, ◌<◌, ◌≡◌, inl, inr, true, false,
  Option, none, some, arith,
}
use kaleidoscope_sdk.JsonSpan.Value.{Bytes}
use kaleidoscope_sdk.JsonSpan.Removal.{Segment}
use kaleidoscope_sdk.JsonSpan.Scanner.{peek, space}
use kaleidoscope_sdk.JsonSpan.Scanner.Bounds.{peek-lt, space_bounds}
use kaleidoscope_sdk.JsonSpan.Enter.{Serde, Found, closer_of, member_at, enter_loop}
use kaleidoscope_sdk.JsonSpan.Enter.Bounds.{member_at_advances}

-- From a cursor, with the count and what was found so far: an empty rest, a member that is broken, one
-- with a comma behind it, or the last one.
pub data EnterEnds (serde : Serde) (text : Bytes) (segment : Segment)
    : ℕ → Found → ℕ → Option (ℕ × ℕ × Found) → Type 0 where
  unclosed :
      {count at : ℕ} {found : Found}
      → peek text (space text at) ≡ none
      → EnterEnds serde text segment count found at none
  closed :
      {count at c : ℕ} {found : Found}
      → peek text (space text at) ≡ some c
      → (c == closer_of segment) ≡ true
      → EnterEnds serde text segment count found at (some (space text at, count, found))
  broken :
      {count at c : ℕ} {found : Found}
      → peek text (space text at) ≡ some c
      → (c == closer_of segment) ≡ false
      → member_at serde text segment count found (space text at) ≡ none
      → EnterEnds serde text segment count found at none
  cut_off :
      {count at c behind : ℕ} {found found' : Found}
      → peek text (space text at) ≡ some c
      → (c == closer_of segment) ≡ false
      → member_at serde text segment count found (space text at) ≡ some (found', behind)
      → peek text behind ≡ none
      → EnterEnds serde text segment count found at none
  comma :
      {count at c d behind : ℕ} {found found' : Found} {r : Option (ℕ × ℕ × Found)}
      → peek text (space text at) ≡ some c
      → (c == closer_of segment) ≡ false
      → member_at serde text segment count found (space text at) ≡ some (found', behind)
      → peek text behind ≡ some d
      → (d == b',') ≡ true
      → EnterEnds serde text segment (count + 1) found' (behind + 1) r
      → EnterEnds serde text segment count found at r
  last :
      {count at c d behind : ℕ} {found found' : Found}
      → peek text (space text at) ≡ some c
      → (c == closer_of segment) ≡ false
      → member_at serde text segment count found (space text at) ≡ some (found', behind)
      → peek text behind ≡ some d
      → (d == b',') ≡ false
      → (d == closer_of segment) ≡ true
      → EnterEnds serde text segment count found at (some (behind, count + 1, found'))
  stray :
      {count at c d behind : ℕ} {found found' : Found}
      → peek text (space text at) ≡ some c
      → (c == closer_of segment) ≡ false
      → member_at serde text segment count found (space text at) ≡ some (found', behind)
      → peek text behind ≡ some d
      → (d == b',') ≡ false
      → (d == closer_of segment) ≡ false
      → EnterEnds serde text segment count found at none

module _ (serde : Serde) (text : Bytes) where
  -- From a cursor in the text, the loop of `enter` ends in the way that its rounds say, if the fuel
  -- exceeds the bytes that are left.
  pub enter_loop-EnterEnds :
      (fuel : ℕ) (segment : Segment) (count : ℕ) (found : Found) (at : ℕ)
      → length text < at + fuel
      → at ≤ length text
      → EnterEnds serde text segment count found at
          (enter_loop serde text fuel segment count found at)
  unfolding enter_loop
  enter_loop-EnterEnds zero segment count found at enough inside = absurd (omega arith)
  enter_loop-EnterEnds (suc fuel) segment count found at enough inside =
      elim (Option-cases (peek text (space text at))) [
        | inl out ↦ rw (out, enter_loop) (unclosed out)
        | inr (c, e) ↦
            rw (e, enter_loop)
              (elim (Bool-cases (c == closer_of segment)) [
                | inl closing ↦ rw closing (closed e closing)
                | inr goes_on ↦
                    rw goes_on
                      (elim (Option-cases
                        (member_at serde text segment count found (space text at))) [
                          | inl bad ↦ rw bad (broken e goes_on bad)
                          | inr ((found', behind), m) ↦
                              rw m (elim (Option-cases (peek text behind)) [
                                | inl out ↦ rw out (cut_off e goes_on m out)
                                | inr (d, k) ↦ rw k (elim (Bool-cases (d == b',')) [
                                  | inl more ↦ rw more (
                                      comma e goes_on m k more (
                                        let gap = space_bounds text at inside in
                                        let moved =
                                          member_at_advances serde text segment count found
                                            (space text at) found' behind (gap.1) m in
                                        enter_loop-EnterEnds fuel segment (count + 1) found'
                                          (behind + 1) (omega (arith, gap, moved))
                                          (omega (arith, peek-lt text behind d k))))
                                  | inr other ↦
                                      rw other (elim (Bool-cases (d == closer_of segment)) [
                                        | inl closing ↦
                                            rw closing (last e goes_on m k other closing)
                                        | inr odd ↦ rw odd (stray e goes_on m k other odd)
                                      ])
                                ])
                              ])
                        ])
              ])
      ]
