-- ===== src/JsonSpan/Excise/Bounds.antt =====
-- The range that `span_of` (src/json_span.rs) deletes lies strictly between the brackets of the
-- container that held the node.
use kaleidoscope_sdk.Prelude.{
  Bool-cases, >>=-eq-some, ◌==◌, ==_iff, length, ℕ, zero, suc, ◌+◌, ◌-◌, ◌≤◌, ◌<◌, ◌≡◌, refl, ◌⊎◌,
  inl, inr, false, some, [], ◌∷◌, arith,
}
use kaleidoscope_sdk.JsonSpan.Value.{Bytes}
use kaleidoscope_sdk.JsonSpan.Removal.{Segment, NodePath}
use kaleidoscope_sdk.JsonSpan.Scanner.{fuel_for, peek}
use kaleidoscope_sdk.JsonSpan.Enter.{Serde, Hit, opener_of, closer_of, enter}
use kaleidoscope_sdk.JsonSpan.Enter.Bounds.{IsPlaced, enter-IsPlaced}
use kaleidoscope_sdk.JsonSpan.Excise.{
  skip_right, skip_left, comma_at, before_last, span_of_hit, walk, span_of,
}

skip_right_bounds :
    (fuel : ℕ) (text : Bytes) (limit cursor : ℕ)
    → (cursor ≤ skip_right fuel text limit cursor)
      × (cursor ≤ limit → skip_right fuel text limit cursor ≤ limit)
unfolding skip_right
skip_right_bounds zero text limit cursor = (omega arith, λ h. h)
skip_right_bounds (suc fuel) text limit cursor =
    ground (arith, skip_right_bounds fuel text limit (cursor + 1))

skip_left_bounds :
    (fuel : ℕ) (text : Bytes) (limit start : ℕ)
    → limit ≤ start
    → (limit ≤ skip_left fuel text limit start) × (skip_left fuel text limit start ≤ start)
unfolding skip_left
skip_left_bounds zero text limit start h = omega arith
skip_left_bounds (suc fuel) text limit start h =
    ground (arith, skip_left_bounds fuel text limit (start - 1))

-- The closing and the opening bracket are no comma.
bracket-comma_at :
    (text : Bytes) (i : ℕ) (segment : Segment)
    → (peek text i ≡ some (opener_of segment)) ⊎ (peek text i ≡ some (closer_of segment))
    → comma_at text i ≡ false
unfolding peek comma_at
bracket-comma_at text i (Segment.key k) (inl e) = rw (e, comma_at) refl
bracket-comma_at text i (Segment.key k) (inr e) = rw (e, comma_at) refl
bracket-comma_at text i (Segment.index n) (inl e) = rw (e, comma_at) refl
bracket-comma_at text i (Segment.index n) (inr e) = rw (e, comma_at) refl

module _ (text : Bytes) (hit : Hit) (placed : IsPlaced (length text) hit) where
  module _ (open_bracket : comma_at text hit.opener ≡ false)
      (close_bracket : comma_at text hit.closer ≡ false) where
    before_last_bounds :
        (s e : ℕ)
        → before_last text hit ≡ some (s, e)
        → (hit.opener < s) × (s ≤ e) × (e ≤ hit.closer)
    unfolding before_last
    before_last_bounds s e h =
        let start = skip_left (fuel_for text) text (hit.opener + 1) hit.start in
        let low =
          skip_left_bounds (fuel_for text) text (hit.opener + 1) hit.start
            (omega (arith, placed)) in
        elim (Bool-cases (start == hit.opener + 1)) [
          | inl least ↦
              let at_opener : start - 1 ≡ hit.opener = ground (arith, least) in
              let quiet : comma_at text (start - 1) ≡ false = rw at_opener open_bracket in
              ground (arith, low, quiet)
          | inr above ↦ ground (arith, low, placed, above)
        ]

    span_of_hit_bounds :
        (s e : ℕ)
        → span_of_hit text hit ≡ some (s, e)
        → (hit.opener < s) × (s ≤ e) × (e ≤ hit.closer)
    unfolding span_of_hit
    span_of_hit_bounds s e h =
        let cursor = skip_right (fuel_for text) text hit.closer hit.finish in
        let right = skip_right_bounds (fuel_for text) text hit.closer hit.finish in
        let next = skip_right_bounds (fuel_for text) text hit.closer (cursor + 1) in
        elim (Bool-cases (cursor == hit.closer)) [
          | inl last ↦
              let quiet : comma_at text cursor ≡ false =
                rw ((==_iff cursor hit.closer).0 last) close_bracket in
              ground (arith, placed, right, quiet, before_last_bounds s e)
          | inr before ↦ ground (arith, placed, right, next, before, before_last_bounds s e)
        ]

module _ (serde : Serde) (text : Bytes) where
  walk-IsPlaced :
      (path : NodePath) (at : ℕ) (hit : Hit)
      → at ≤ length text
      → walk serde text path at ≡ some hit
      → IsPlaced (length text) hit
        × (comma_at text hit.opener ≡ false)
        × (comma_at text hit.closer ≡ false)
  unfolding walk
  walk-IsPlaced [] at hit l h = cc
  walk-IsPlaced (segment ∷ []) at hit l h =
      let (placed, o, c) = enter-IsPlaced serde text segment at hit l h in
      (
        placed,
        bracket-comma_at text hit.opener segment (inl o),
        bracket-comma_at text hit.closer segment (inr c),
      )
  walk-IsPlaced (segment ∷ next ∷ path) at hit l h =
      let (outer, e, h') = >>=-eq-some (enter serde text segment at) _ h in
      walk-IsPlaced (next ∷ path) outer.value_start hit
        (omega (arith, (enter-IsPlaced serde text segment at outer l e).0)) h'

  -- What `span_of` deletes: the range begins after the opening bracket of the container that the
  -- path leads into, it does not end before it begins, and it ends at the closing bracket at the
  -- latest, which is a byte of the text.
  pub span_of_bounds :
      (path : NodePath) (start finish : ℕ)
      → span_of serde text path ≡ some (start, finish)
      → (hit : Hit) × (walk serde text path 0 ≡ some hit)
        × (hit.opener < start)
        × (start ≤ finish)
        × (finish ≤ hit.closer)
        × (hit.closer < length text)
  unfolding span_of
  span_of_bounds path start finish h =
      let (hit, e, f) = >>=-eq-some (walk serde text path 0) _ h in
      let (placed, o, c) = walk-IsPlaced path 0 hit (omega arith) e in
      let (low, mid, high) = span_of_hit_bounds text hit placed o c start finish f in
      (hit, e, low, mid, high, placed.bounded)
