-- ===== src/Prelude/Strings.antt =====
-- Rust's `str` as the list of its UTF-8 bytes, which `len` counts and `as_bytes` indexes.
use Prim.Native.Nat.{ℕ}
use Prim.Native.Char.{code}
use Prim.Native.String.{String}
use mathlib.Core.Bool.{Bool, true, false, ◌&&◌, ◌||◌}
use mathlib.Core.List.{List, [], ◌∷◌, reverse}
use mathlib.Core.Option
use mathlib.Core.Option.{Option, none, some}
use kaleidoscope_sdk.Prelude.Tests.{ltb, leb, ◌==◌, if◌then◌else◌}
use kaleidoscope_sdk.Prelude.Lists.{all, any}

abbrev pub Text : Type 0
Text = List ℕ

-- The bytes of an ASCII literal.
abbrev pub codes : String → Text
codes String.[] = []
codes (String.◌∷◌ c s) = code c ∷ codes s

-- `str::is_ascii`
unfoldable pub is_ascii : Text → Bool
is_ascii t = all (λ c. ltb c 0x80) t

-- `.chars().any(char::is_control)`: below 0x20, DEL, or U+0080 to U+009F, whose two bytes are 0xC2 and
-- one of 0x80 to 0x9F.
unfoldable pub has_control : Text → Bool
has_control [] = false
has_control (c ∷ []) = ltb c 0x20 || c == 0x7F
has_control (c ∷ d ∷ cs) =
    (ltb c 0x20 || c == 0x7F || c == 0xC2 && leb 0x80 d && ltb d 0xA0) || has_control (d ∷ cs)

-- `u8::is_ascii_whitespace`
unfoldable pub is_ascii_whitespace : ℕ → Bool
is_ascii_whitespace c = c == 0x20 || c == 0x09 || c == 0x0A || c == 0x0C || c == 0x0D

-- `u8::is_ascii_alphanumeric`
unfoldable pub is_ascii_alphanumeric : ℕ → Bool
is_ascii_alphanumeric c =
    leb b'0' c && leb c b'9' || leb b'A' c && leb c b'Z' || leb b'a' c && leb c b'z'

-- `str::is_empty`
abbrev pub is_empty : Text → Bool
is_empty [] = true
is_empty (c ∷ cs) = false

-- `str::starts_with` with a pattern that is a text.
unfoldable pub starts_with : Text → Text → Bool
starts_with cs [] = true
starts_with [] (p ∷ ps) = false
starts_with (c ∷ cs) (p ∷ ps) = c == p && starts_with cs ps

-- `str::strip_prefix`
unfoldable pub strip_prefix : Text → Text → Option Text
strip_prefix cs [] = some cs
strip_prefix [] (p ∷ ps) = none
strip_prefix (c ∷ cs) (p ∷ ps) = if c == p then strip_prefix cs ps else none

-- `str::strip_suffix`
unfoldable pub strip_suffix : Text → Text → Option Text
unfolding strip_prefix
strip_suffix cs ps = Option.map reverse (strip_prefix (reverse cs) (reverse ps))

-- `str::contains` with one byte.
unfoldable pub contains_byte : ℕ → Text → Bool
contains_byte c t = any (λ d. d == c) t

-- `value.contains("..")`
unfoldable pub contains_dots : Text → Bool
contains_dots [] = false
contains_dots (c ∷ []) = false
contains_dots (c ∷ d ∷ cs) = c == b'.' && d == b'.' || contains_dots (d ∷ cs)
