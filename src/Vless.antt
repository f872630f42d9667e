-- ===== src/Vless.antt =====
-- internal/common/vless/parse.go: the skip of a line, with its reason codes.
use scd.Prelude.{ℕ, String, Option, List}

pub record Skip : Type 0 where
  pub line : ℕ
  pub raw : String
  pub label : Option String
  pub code : String
  pub reason : String
  pub details : List String

abbrev pub code_unsupported_scheme : String
code_unsupported_scheme = "unsupported_scheme"

abbrev pub code_invalid_uri : String
code_invalid_uri = "invalid_uri"

abbrev pub code_missing_required_field : String
code_missing_required_field = "missing_required_field"

abbrev pub code_unsupported_value : String
code_unsupported_value = "unsupported_value"

abbrev pub code_unsupported_combo : String
code_unsupported_combo = "unsupported_combo"

abbrev pub code_duplicate_tag : String
code_duplicate_tag = "duplicate_tag"
