-- ===== src/JsonSpan/Tests.antt =====
-- src/json_span.rs on one document: the removal of the leading member, as in the source's own tests.
use kaleidoscope_sdk.JsonSpan.Scanner.{
  space_loop, is_space, peek, space, string_loop, scan_string, depth_loop, ends_literal, scan_value,
}
use kaleidoscope_sdk.JsonSpan.Excise.{space_at, comma_at, walk, span_of, excise}
use kaleidoscope_sdk.JsonSpan.Value.{
  contains_key, Bytes, Value, number, object, end, member, value_eq, member_count,
}
use kaleidoscope_sdk.JsonSpan.Enter.{member_at, Serde, slice, Hit, enter_loop, enter}
use kaleidoscope_sdk.JsonSpan.Removal.{
  adds_key, key, NodePath, removed_keys, changed_keys, classify, by_difference, removal_path,
}
use kaleidoscope_sdk.Prelude.{
  if◌then◌else◌, length, bytes_eq, codes, ◌-◌, ◌≤◌, ◌<◌, ◌≡◌, refl, none, some, [], ◌∷◌, arith,
}
use kaleidoscope_sdk.JsonSpan.Removal.Sound.{Removes, removal_path-Removes}
use kaleidoscope_sdk.JsonSpan.Scanner.Runs.{
  StringEnds, DepthEnds, string_loop-StringEnds, depth_loop-DepthEnds,
}
use kaleidoscope_sdk.JsonSpan.Scanner.Literal.{is_body, scan_string-literal}
use kaleidoscope_sdk.JsonSpan.Enter.Bounds.{IsPlaced, enter-IsPlaced}
use kaleidoscope_sdk.JsonSpan.Enter.Runs.{EnterEnds, enter_loop-EnterEnds}
use kaleidoscope_sdk.JsonSpan.Excise.Bounds.{span_of_bounds}
use kaleidoscope_sdk.JsonSpan.Excise.Sound.{IsExcision, excise-IsExcision}

abbrev pub text : Bytes
text = codes "{\"a\": 1, \"b\": 2}"

abbrev pub rest : Bytes
rest = codes "{\"b\": 2}"

abbrev pub before : Value
before = object (member (codes "a") (number 1) (member (codes "b") (number 2) end))

abbrev pub after : Value
after = object (member (codes "b") (number 2) end)

-- A reader of these two documents, and of keys without escapes.
abbrev pub toy_serde : Serde
toy_serde = record {
  parse =
      λ t. if bytes_eq t rest then some after else if bytes_eq t text then some before else none;
  parse_string = λ quoted. slice quoted 1 (length quoted - 1);
}

abbrev path : NodePath
path = key (codes "a") ∷ []

abbrev hit : Hit
hit = record { start = 1; finish = 7; value_start = 6; opener = 0; closer = 15; count = 2 }

leading_member_path : removal_path before after ≡ some path
unfolding removal_path adds_key contains_key bytes_eq by_difference classify removed_keys
    changed_keys value_eq
leading_member_path = refl

leading_member_hit : enter toy_serde text (key (codes "a")) 0 ≡ some hit
unfolding enter peek space space_loop is_space member_at scan_string scan_value ends_literal
    bytes_eq
leading_member_hit = refl

leading_member_span : span_of toy_serde text path ≡ some (1, 9)
unfolding span_of enter peek space space_loop is_space member_at scan_string scan_value ends_literal
    bytes_eq comma_at space_at
leading_member_span = refl

pub leading_member_cut : excise toy_serde text before after ≡ some rest
unfolding excise removal_path value_eq member_count adds_key contains_key bytes_eq by_difference
    classify removed_keys changed_keys enter peek space space_loop is_space member_at scan_string
    scan_value ends_literal comma_at space_at
leading_member_cut = refl

excise-IsExcision_example : IsExcision toy_serde text before after rest
excise-IsExcision_example = excise-IsExcision toy_serde text before after rest leading_member_cut

removal_path-Removes_example : Removes path before after
removal_path-Removes_example = removal_path-Removes before after path leading_member_path

span_of_bounds_example :
    (h : Hit) × (walk toy_serde text path 0 ≡ some h)
    × (h.opener < 1)
    × (1 ≤ 9)
    × (9 ≤ h.closer)
    × (h.closer < length text)
span_of_bounds_example = span_of_bounds toy_serde text path 1 9 leading_member_span

enter-IsPlaced_example :
    IsPlaced (length text) hit × (peek text 0 ≡ some b'{') × (peek text 15 ≡ some b'}')
enter-IsPlaced_example =
    enter-IsPlaced toy_serde text (key (codes "a")) 0 hit (omega arith) leading_member_hit

enter_loop-EnterEnds_example :
    EnterEnds toy_serde text
      (key (codes "a"))
      0
      none
      1
      (enter_loop toy_serde text 17 (key (codes "a")) 0 none 1)
enter_loop-EnterEnds_example =
    enter_loop-EnterEnds toy_serde text 17 (key (codes "a")) 0 none 1 (omega arith) (omega arith)

scan_string-literal_example : scan_string text 1 ≡ some 4
unfolding is_body
scan_string-literal_example =
    scan_string-literal text 1 (codes "a") (codes ": 1, \"b\": 2}") refl refl

string_loop-StringEnds_example : StringEnds text 2 (string_loop text 17 2)
string_loop-StringEnds_example = string_loop-StringEnds text 17 2 (omega arith)

depth_loop-DepthEnds_example : DepthEnds text b'{' b'}' 1 1 (depth_loop text 18 b'{' b'}' 1 1)
depth_loop-DepthEnds_example =
    depth_loop-DepthEnds text 18 b'{' b'}' 1 1 (omega arith) (omega arith)
