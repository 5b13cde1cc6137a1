-- ===== src/JsonSpan/Scanner.antt =====
-- src/json_span.rs, `Scanner`: the cursor that places members and elements in the original text.
-- A method takes the bytes and the cursor, and returns its result with the new cursor; `none` is
-- the source's `None`, after which every caller returns `None` too, so the cursor is not needed.
-- A loop takes fuel. JsonSpan.Scanner.Runs and JsonSpan.Scanner.Fuel
-- are about what `fuel_for` gives.
pub mod Bounds
pub mod Fuel
pub mod Runs
pub mod Literal
use kaleidoscope_sdk.Prelude.{
  ◌==◌, if◌then◌else◌, length, get_elem?, ℕ, zero, suc, ◌+◌, Bool, true, false, ◌||◌, Option, none,
  some, ◌>>=◌,
}
use kaleidoscope_sdk.JsonSpan.Value.{Bytes}

-- `is_space`
unfoldable pub is_space : ℕ → Bool
is_space c = c == b' ' || c == 0x09 || c == 0x0A || c == 0x0D

abbrev pub fuel_for : Bytes → ℕ
fuel_for bytes = suc (length bytes)

module _ (bytes : Bytes) where
  -- `Scanner::peek`
  unfoldable pub peek : ℕ → Option ℕ
  peek at = get_elem? bytes at

  -- `Scanner::space`
  unfoldable pub space_loop : ℕ → ℕ → ℕ
  space_loop zero at = at
  space_loop (suc fuel) at = elim (peek at) [
    | none ↦ at
    | some c ↦ elim (is_space c) [ true ↦ space_loop fuel (at + 1) | false ↦ at ]
  ]

  unfoldable pub space : ℕ → ℕ
  space at = space_loop (fuel_for bytes) at

  -- `Scanner::eat`
  unfoldable pub eat : ℕ → ℕ → Option ℕ
  eat c at = peek at >>= λ d. if d == c then some (at + 1) else none

  -- The loop of `Scanner::string`: past the closing quote.
  unfoldable pub string_loop : ℕ → ℕ → Option ℕ
  string_loop zero at = none
  string_loop (suc fuel) at = elim (peek at) [
    | none ↦ none
    | some c ↦ elim (c == 0x5C) [
      | true ↦ string_loop fuel (at + 2)
      | false ↦ elim (c == b'"') [ true ↦ some (at + 1) | false ↦ string_loop fuel (at + 1) ]
    ]
  ]

  -- `Scanner::string`: the cursor past the literal, whose span begins where the cursor was.
  unfoldable pub scan_string : ℕ → Option ℕ
  unfolding eat string_loop
  scan_string at = eat b'"' at >>= λ inside. string_loop (fuel_for bytes) inside

  -- The loop over a container's interior in `Scanner::value`, `while depth > 0`.
  unfoldable pub depth_loop : ℕ → ℕ → ℕ → ℕ → ℕ → Option ℕ
  depth_loop zero opener closer depth at = none
  depth_loop (suc fuel) opener closer zero at = some at
  depth_loop (suc fuel) opener closer (suc depth) at = elim (peek at) [
    | none ↦ none
    | some c ↦ elim (c == b'"') [
      | true ↦ elim (scan_string at) [
        | none ↦ none
        | some past ↦ depth_loop fuel opener closer (suc depth) past
      ]
      | false ↦ elim (c == opener) [
        | true ↦ depth_loop fuel opener closer (suc (suc depth)) (at + 1)
        | false ↦ elim (c == closer) [
          | true ↦ depth_loop fuel opener closer depth (at + 1)
          | false ↦ depth_loop fuel opener closer (suc depth) (at + 1)
        ]
      ]
    ]
  ]

  -- A number or a word ends before white space, a comma or a closing bracket.
  unfoldable pub ends_literal : ℕ → Bool
  ends_literal c = is_space c || c == b',' || c == b'}' || c == b']'

  unfoldable pub literal_loop : ℕ → ℕ → ℕ
  literal_loop zero at = at
  literal_loop (suc fuel) at = elim (peek at) [
    | none ↦ at
    | some c ↦ elim (ends_literal c) [ true ↦ at | false ↦ literal_loop fuel (at + 1) ]
  ]

  -- The `match` of `Scanner::value` on the byte at the cursor.
  unfoldable pub value_at : ℕ → ℕ → Option ℕ
  unfolding scan_string depth_loop literal_loop
  value_at c at =
      if c == b'"'
      then scan_string at
      else if c == b'{'
      then depth_loop (suc (fuel_for bytes)) b'{' b'}' 1 (at + 1)
      else if c == b'['
      then depth_loop (suc (fuel_for bytes)) b'[' b']' 1 (at + 1)
      else some (literal_loop (fuel_for bytes) at)

  -- `Scanner::value`
  unfoldable pub scan_value : ℕ → Option ℕ
  unfolding peek space value_at
  scan_value at = let at' = space at in peek at' >>= λ c. value_at c at'
