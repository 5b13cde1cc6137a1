-- ===== src/JsonSpan/Enter.antt =====
-- src/json_span.rs, `Scanner::enter`: the walk over the container at the cursor, which finds the
-- addressed member or element. `Serde` stands for `serde_json::from_str`, at `Value` and at
-- `String`.
pub mod Bounds
pub mod Runs
use kaleidoscope_sdk.Prelude.{
  ltb, leb, ◌==◌, if◌then◌else◌, length, get_elem?, take, drop, bytes_eq, ℕ, zero, suc, ◌+◌, ◌-◌,
  Bool, true, false, ◌&&◌, ◌||◌, Option, none, some, ◌>>=◌,
}
use kaleidoscope_sdk.JsonSpan.Value.{Bytes, Value}
use kaleidoscope_sdk.JsonSpan.Removal.{Segment, key, index}
use kaleidoscope_sdk.JsonSpan.Scanner.{fuel_for, peek, space, eat, scan_string, scan_value}

pub record Serde : Type 0 where
  pub parse : Bytes → Option Value
  pub parse_string : Bytes → Option Bytes

-- `str::is_char_boundary`
unfoldable pub is_char_boundary : Bytes → ℕ → Bool
is_char_boundary text i =
    i == 0
    || (elim (get_elem? text i) [ none ↦ i == length text | some c ↦ ltb c 0x80 || leb 0xC0 c ])

-- `text.get(from..to)`
unfoldable pub slice : Bytes → ℕ → ℕ → Option Bytes
unfolding is_char_boundary
slice text from to =
    if leb from to && is_char_boundary text from && is_char_boundary text to
    then some (take (to - from) (drop from text))
    else none

-- `struct Hit`
pub record Hit : Type 0 where
  pub start : ℕ
  pub finish : ℕ
  pub value_start : ℕ
  pub opener : ℕ
  pub closer : ℕ
  pub count : ℕ

abbrev pub opener_of : Segment → ℕ
opener_of (key k) = b'{'
opener_of (index i) = b'['

abbrev pub closer_of : Segment → ℕ
closer_of (key k) = b'}'
closer_of (index i) = b']'

-- The first match, `(start, end, value_start)`.
abbrev pub Found : Type 0
Found = Option (ℕ × ℕ × ℕ)

-- `if matches && found.is_none() { found = Some(..) }`
unfoldable pub note_found : Bool → Found → ℕ → ℕ → ℕ → Found
note_found true none start finish value_start = some (start, finish, value_start)
note_found true (some f) start finish value_start = some f
note_found false found start finish value_start = found

module _ (serde : Serde) (text : Bytes) where
  -- The `let matches = match segment`, with the cursor behind it.
  unfoldable pub matches : Segment → ℕ → ℕ → Option (Bool × ℕ)
  unfolding eat slice
  matches (key wanted) count start = do
    quote_end ← scan_string text start
    at ← eat text b':' (space text quote_end)
    quoted ← slice text start quote_end
    decoded ← serde.parse_string quoted
    some (bytes_eq decoded wanted, at)
  matches (index wanted) count start = some (count == wanted, start)

  -- One member or element from `start`, up to the byte behind its value: the new `found`, and the
  -- cursor.
  unfoldable pub member_at : Segment → ℕ → Found → ℕ → Option (Found × ℕ)
  unfolding matches note_found
  member_at segment count found start = do
    (hit, at) ← matches segment count start
    let value_start = space text at
    finish ← scan_value text value_start
    some (note_found hit found start finish value_start, space text finish)

  -- The loop: the position of the closing bracket, the count, and what was found.
  unfoldable pub enter_loop : ℕ → Segment → ℕ → Found → ℕ → Option (ℕ × ℕ × Found)
  enter_loop zero segment count found at = none
  enter_loop (suc fuel) segment count found at =
      let start = space text at in
      elim (peek text start) [
        | none ↦ none
        | some c ↦ elim (c == closer_of segment) [
          | true ↦ some (start, count, found)
          | false ↦ elim (member_at segment count found start) [
            | none ↦ none
            | some (found', behind) ↦ elim (peek text behind) [
              | none ↦ none
              | some d ↦ elim (d == b',') [
                | true ↦ enter_loop fuel segment (count + 1) found' (behind + 1)
                | false ↦ if d == closer_of segment then some (behind, count + 1, found') else none
              ]
            ]
          ]
        ]
      ]

  -- `Scanner::enter`
  unfoldable pub enter : Segment → ℕ → Option Hit
  unfolding eat enter_loop
  enter segment at = do
    let opener = space text at
    inside ← eat text (opener_of segment) opener
    (closer, count, found) ← enter_loop (fuel_for text) segment 0 none inside
    (start, finish, value_start) ← found
    some (record {
      start = start;
      finish = finish;
      value_start = value_start;
      opener = opener;
      closer = closer;
      count = count;
    })
