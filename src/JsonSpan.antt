-- ===== src/JsonSpan.antt =====
-- json_span: removing one node from a JSON document without reformatting the rest.
pub mod Value
pub mod Removal
pub mod Scanner
pub mod Enter
pub mod Excise
pub mod Tests
