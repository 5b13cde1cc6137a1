-- ===== src/JsonSpan/Enter/Bounds.antt =====
-- What `Scanner::enter` (src/json_span.rs) returns: a hit whose parts lie in order between the
-- brackets of the container, inside the text; and its loop ends.
use kaleidoscope_sdk.Prelude.{
  Bool-cases, Option-cases, >>=-eq-some, ◌==◌, length, ℕ, zero, suc, ◌+◌, ◌≤◌, ◌<◌, ◌≡◌, inl, inr,
  Bool, true, false, none, some, arith,
}
use kaleidoscope_sdk.JsonSpan.Value.{Bytes}
use kaleidoscope_sdk.JsonSpan.Removal.{Segment, key, index}
use kaleidoscope_sdk.JsonSpan.Scanner.{space, eat, scan_string, scan_value, fuel_for, peek}
use kaleidoscope_sdk.JsonSpan.Scanner.Bounds.{
  space_bounds, eat_lem, scan_string_bounds, scan_value_bounds, peek-lt, eat-peek,
}
use kaleidoscope_sdk.JsonSpan.Enter.{
  Serde, slice, Hit, Found, note_found, matches, member_at, opener_of, closer_of, enter_loop, enter,
}

-- The order of the positions of a hit, in a text of `n` bytes.
pub record IsPlaced (n : ℕ) (h : Hit) : Type 0 where
  pub inside : h.opener < h.start
  pub begun : h.start ≤ h.value_start
  pub ordered : h.value_start ≤ h.finish
  pub closed : h.finish ≤ h.closer
  pub bounded : h.closer < n

-- What the loop has found so far lies between the opening bracket and the cursor.
abbrev FoundWithin : ℕ → ℕ → Found → Type 0
FoundWithin low high none = Unit {0}
FoundWithin low high (some (start, finish, value_start)) =
    (low ≤ start) × (start ≤ value_start) × (value_start ≤ finish) × (finish ≤ high)

FoundWithin-widen :
    (low high high' : ℕ) (f : Found)
    → high ≤ high'
    → FoundWithin low high f
    → FoundWithin low high' f
FoundWithin-widen low high high' none h w = tt
FoundWithin-widen low high high' (some (s, e, v)) h w = (w.0, w.1, w.2, omega arith)

note_found-FoundWithin :
    (hit : Bool) (f : Found) (low start finish value_start high : ℕ)
    → FoundWithin low high f
    → low ≤ start
    → start ≤ value_start
    → value_start ≤ finish
    → finish ≤ high
    → FoundWithin low high (note_found hit f start finish value_start)
unfolding note_found
note_found-FoundWithin true none low s e v high w a b c d = (a, b, c, d)
note_found-FoundWithin true (some f) low s e v high w a b c d = w
note_found-FoundWithin false none low s e v high w a b c d = w
note_found-FoundWithin false (some f) low s e v high w a b c d = w

module _ (serde : Serde) (text : Bytes) where
  matches_bounds :
      (segment : Segment) (count start : ℕ) (hit : Bool) (at : ℕ)
      → start ≤ length text
      → matches serde text segment count start ≡ some (hit, at)
      → (start ≤ at) × (at ≤ length text)
  unfolding matches
  matches_bounds (index i) count start hit at l h = ground arith
  matches_bounds (key k) count start hit at l h =
      let (q, e, h1) = >>=-eq-some (scan_string text start) _ h in
      let (p, f, h2) = >>=-eq-some (eat text b':' (space text q)) _ h1 in
      let (quoted, g, h3) = >>=-eq-some (slice text start q) _ h2 in
      let (decoded, d, last) = >>=-eq-some (serde.parse_string quoted) _ h3 in
      let bound = scan_string_bounds text start q e in
      let gap = space_bounds text q (bound.1) in
      let colon = eat_lem text b':' (space text q) p f in
      let same : p ≡ at = ground (arith, last) in omega (arith, bound, gap, colon, same)

  member_at_bounds :
      (segment : Segment) (count : ℕ) (f : Found) (start : ℕ) (f' : Found) (at low : ℕ)
      → low ≤ start
      → start ≤ length text
      → FoundWithin low start f
      → member_at serde text segment count f start ≡ some (f', at)
      → (start ≤ at) × (at ≤ length text) × FoundWithin low at f'
  unfolding member_at
  member_at_bounds segment count f start f' at low a l w h =
      let ((hit, p), e, h1) = >>=-eq-some (matches serde text segment count start) _ h in
      let (q, g, last) = >>=-eq-some (scan_value text (space text p)) _ h1 in
      let first = matches_bounds segment count start hit p l e in
      let gap = space_bounds text p (first.1) in
      let body = scan_value_bounds text (space text p) q (gap.1) g in
      let behind = space_bounds text q (body.1) in
      let same : space text q ≡ at = ground (arith, last) in
      let noted : note_found hit f start q (space text p) ≡ f' = ground (arith, last) in
      let wide =
        FoundWithin-widen low start at f (omega (arith, first, gap, body, behind, same)) w in
      let held =
        note_found-FoundWithin hit f low start q (space text p) at wide a
          (omega (arith, first, gap, body)) (body.0) (omega (arith, behind, same)) in
      (omega (arith, first, gap, body, behind, same), omega (arith, behind, same), rw noted at held)

  pub member_at_advances :
      (segment : Segment) (count : ℕ) (f : Found) (start : ℕ) (f' : Found) (at : ℕ)
      → start ≤ length text
      → member_at serde text segment count f start ≡ some (f', at)
      → (start ≤ at) × (at ≤ length text)
  unfolding member_at
  member_at_advances segment count f start f' at l h =
      let ((hit, p), e, h1) = >>=-eq-some (matches serde text segment count start) _ h in
      let (q, g, last) = >>=-eq-some (scan_value text (space text p)) _ h1 in
      let first = matches_bounds segment count start hit p l e in
      let gap = space_bounds text p (first.1) in
      let body = scan_value_bounds text (space text p) q (gap.1) g in
      let same : space text q ≡ at = ground (arith, last) in
      omega (arith, first, gap, body, space_bounds text q (body.1), same)

  enter_loop_bounds :
      (fuel : ℕ) (segment : Segment) (count : ℕ) (f : Found) (at low closer n : ℕ) (f' : Found)
      → low ≤ at
      → at ≤ length text
      → FoundWithin low at f
      → enter_loop serde text fuel segment count f at ≡ some (closer, n, f')
      → (closer < length text)
        × FoundWithin low closer f'
        × (peek text closer ≡ some (closer_of segment))
  unfolding enter_loop
  enter_loop_bounds zero segment count f at low closer n f' a l w h = cc
  enter_loop_bounds (suc fuel) segment count f at low closer n f' a l w h =
      let start = space text at in
      let gap = space_bounds text at l in
      let here = FoundWithin-widen low at start f (gap.0) w in
      elim (Option-cases (peek text start)) [
        | inl out ↦ ground (arith, out)
        | inr (c, e) ↦ elim (Bool-cases (c == closer_of segment)) [
          | inl last ↦
              let same : start ≡ closer = ground (arith, e, last) in
              let kept : f ≡ f' = ground (arith, e, last) in
              (
                omega (arith, same, peek-lt text start c e),
                rw kept at (rw same at here),
                ground (arith, e, last, same),
              )
          | inr more ↦ elim (Option-cases (member_at serde text segment count f start)) [
            | inl broken ↦ ground (arith, e, more, broken)
            | inr ((g, behind), m) ↦
                let inner =
                  member_at_bounds segment count f start g behind low (omega (arith, gap)) (gap.1)
                    here m in
                elim (Option-cases (peek text behind)) [
                  | inl out ↦ ground (arith, e, more, m, out)
                  | inr (d, k) ↦ elim (Bool-cases (d == b',')) [
                    | inl comma ↦
                        let wide =
                          FoundWithin-widen low behind (behind + 1) g (omega arith) (inner.2) in
                        enter_loop_bounds fuel segment (count + 1) g (behind + 1) low closer n f'
                          (omega (arith, inner, gap)) (omega (arith, peek-lt text behind d k)) wide
                          (ground (arith, e, more, m, k, comma))
                    | inr other ↦
                        let same : behind ≡ closer = ground (arith, e, more, m, k, other) in
                        let kept : g ≡ f' = ground (arith, e, more, m, k, other) in
                        (
                          omega (arith, same, peek-lt text behind d k),
                          rw kept at (rw same at (inner.2)),
                          ground (arith, k, other, same),
                        )
                  ]
                ]
          ]
        ]
      ]

  -- A hit of a walk that began inside the text is well placed: its opening bracket, its start, its end and its closing bracket stand in
  -- this order, the closing bracket is a byte of the text, and the two brackets are those of the
  -- segment's kind of container.
  pub enter-IsPlaced :
      (segment : Segment) (at : ℕ) (hit : Hit)
      → at ≤ length text
      → enter serde text segment at ≡ some hit
      → IsPlaced (length text) hit
        × (peek text hit.opener ≡ some (opener_of segment))
        × (peek text hit.closer ≡ some (closer_of segment))
  unfolding enter
  enter-IsPlaced segment at hit l h =
      let opener = space text at in
      let (inside, e, h1) = >>=-eq-some (eat text (opener_of segment) opener) _ h in
      let ((closer, n, f), g, h2) =
        >>=-eq-some (enter_loop serde text (fuel_for text) segment 0 none inside) _ h1 in
      let ((start, finish, value_start), k, last) = >>=-eq-some f _ h2 in
      let first = eat_lem text (opener_of segment) opener inside e in
      let loop =
        enter_loop_bounds (fuel_for text) segment 0 none inside inside closer n f (omega arith)
          (omega (arith, first)) tt g in
      let within : FoundWithin inside closer (some (start, finish, value_start)) =
        rw k at (loop.1) in
      let bracket = eat-peek text (opener_of segment) opener inside e in
      (
        ground (arith, last, first, loop, within),
        ground (arith, last, bracket),
        ground (arith, last, loop),
      )
