-- ===== src/Prelude/Search.antt =====
-- Searching a text: `find`, `match_indices`, `replacen` and `trim().is_empty()` of Rust's `str`.
use Prim.Native.Nat.{ℕ, zero, suc, ◌+◌, ◌-◌}
use mathlib.Core.Bool.{Bool, true, ◌&&◌, ◌||◌}
use mathlib.Core.List.{List, [], ◌∷◌, ◌++◌}
use mathlib.Core.Option.{Option, none, some}
use kaleidoscope_sdk.Prelude.Tests.{leb, ◌==◌, if◌then◌else◌, is_some}
use kaleidoscope_sdk.Prelude.Lists.{length, take, drop}
use kaleidoscope_sdk.Prelude.Strings.{Text, starts_with, is_empty, strip_suffix}

-- `find`, from an offset.
unfoldable pub find_from : Text → ℕ → Text → Option ℕ
find_from [] at pat = if is_empty pat then some at else none
find_from (c ∷ cs) at pat =
    let rest = find_from cs (at + 1) pat in if starts_with (c ∷ cs) pat then some at else rest

abbrev pub find : Text → Text → Option ℕ
find text pat = find_from text 0 pat

-- `contains` with a text.
abbrev pub contains_text_in : Text → Text → Bool
contains_text_in text pat = is_some (find text pat)

-- `match_indices` with a pattern that is not empty, from an offset, where the first bytes belong to
-- the match before.
unfoldable pub matches_from : Text → ℕ → ℕ → Text → List ℕ
matches_from [] skip at pat = []
matches_from (c ∷ cs) (suc skip) at pat = matches_from cs skip (at + 1) pat
matches_from (c ∷ cs) zero at pat =
    let found = matches_from cs (length pat - 1) (at + 1) pat in
    let rest = matches_from cs 0 (at + 1) pat in
    if starts_with (c ∷ cs) pat then at ∷ found else rest

abbrev pub match_indices : Text → Text → List ℕ
match_indices text pat = matches_from text 0 0 pat

-- `replacen(from, to, 1)`
unfoldable pub replace_first : Text → Text → Text → Text
replace_first text from to = elim (find text from) [
  | none ↦ text
  | some at ↦ take at text ++ (to ++ drop (at + length from) text)
]

-- `ends_with`
unfoldable pub ends_with : Text → Text → Bool
ends_with text suffix = is_some (strip_suffix text suffix)

-- The characters of the Unicode property White_Space, by the number of their bytes.
abbrev is_space1 : ℕ → Bool
is_space1 c = leb 0x09 c && leb c 0x0D || c == 0x20

abbrev is_space2 : ℕ → ℕ → Bool
is_space2 c d = c == 0xC2 && (d == 0x85 || d == 0xA0)

abbrev is_space3 : ℕ → ℕ → ℕ → Bool
is_space3 c d e =
    c == 0xE1 && d == 0x9A && e == 0x80
    || c == 0xE2 && d == 0x80 && (leb 0x80 e && leb e 0x8A || e == 0xA8 || e == 0xA9 || e == 0xAF)
    || c == 0xE2 && d == 0x81 && e == 0x9F
    || c == 0xE3 && d == 0x80 && e == 0x80

-- `trim().is_empty()`
unfoldable pub is_blank : Text → Bool
is_blank [] = true
is_blank (c ∷ []) = is_space1 c
is_blank (c ∷ d ∷ []) = is_space1 c && is_space1 d || is_space2 c d
is_blank (c ∷ d ∷ e ∷ cs) =
    let after1 = is_blank (d ∷ e ∷ cs) in
    let after2 = is_blank (e ∷ cs) in
    let after3 = is_blank cs in
    is_space1 c && after1 || is_space2 c d && after2 || is_space3 c d e && after3
