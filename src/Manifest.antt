-- ===== src/Manifest.antt =====
-- internal/scd/manifest: the entries of a subscription text, and the lines that were skipped. The
-- parser and the normalizer of a line are arguments.
pub mod Built
pub mod Filters
pub mod Filtered
use scd.Prelude.{
  ℕ, suc, ◌+◌, String, Bool, true, false, not, ◌&&◌, ◌||◌, Option, none, some, List, [], ◌∷◌, ◌++◌,
  ◌⊎◌, inl, inr, ◌==◌, string_eq, contains, is_empty, append, length, if◌then◌else◌,
}
use scd.Country
use scd.LabelFilter.{match, empty}
use scd.Selection.{
  Candidate, SourceFilters, Reason, pass, dropped_by_entry, dropped_by_exit, dropped_by_label,
  filter,
}
use scd.Xray.{Result, ok, err, Handler, Error}
use scd.Vless.{
  Skip, code_unsupported_scheme, code_invalid_uri, code_missing_required_field,
  code_unsupported_value, code_unsupported_combo, code_duplicate_tag,
}
use scd.Outbound.{Spec, Normalized, Builder}

-- The warnings and the parsed candidate with its private key are left out.
pub record Entry (F : Type 0) : Type 0 where
  pub kind : String
  pub protocol : String
  pub tag : String
  pub label : String
  pub profile : String
  pub line : ℕ
  pub country : Option Country.Info
  pub city : String
  pub normalized : Normalized
  pub json_outbound : Spec
  pub selection : Option (Candidate F)

pub record Summary : Type 0 where
  pub total_lines : ℕ
  pub parsed : ℕ
  pub skipped : ℕ
  pub filtered : ℕ
  pub filtered_by_country : ℕ
  pub filtered_by_label_regex : ℕ
  pub unsupported_scheme : ℕ
  pub unsupported_value : ℕ
  pub unsupported_combo : ℕ
  pub invalid_uri : ℕ
  pub missing_required_field : ℕ
  pub duplicate_tag : ℕ
  pub port_range_exhausted : ℕ
  pub wireguard_invalid : ℕ
  pub masque_invalid : ℕ

pub record Manifest (F : Type 0) : Type 0 where
  pub version : ℕ
  pub generated_at : String
  pub source_file : String
  pub entries : List (Entry F)
  pub skipped : List Skip
  pub summary : Summary

abbrev code_wireguard_invalid : String
code_wireguard_invalid = "wireguard_invalid"

abbrev code_masque_invalid : String
code_masque_invalid = "masque_invalid"

abbrev zero_summary : ℕ → Summary
zero_summary n = record {
  total_lines = n;
  parsed = 0;
  skipped = 0;
  filtered = 0;
  filtered_by_country = 0;
  filtered_by_label_regex = 0;
  unsupported_scheme = 0;
  unsupported_value = 0;
  unsupported_combo = 0;
  invalid_uri = 0;
  missing_required_field = 0;
  duplicate_tag = 0;
  port_range_exhausted = 0;
  wireguard_invalid = 0;
  masque_invalid = 0;
}

-- The counter that the switch of skip chooses, if any.
pub data Counter : Type 0 where
  counts_unsupported_scheme counts_unsupported_value counts_unsupported_combo counts_invalid_uri
        counts_missing_required_field counts_duplicate_tag counts_wireguard_invalid
        counts_masque_invalid no_counter :
      Counter

counter_of : String → Counter
counter_of code =
    if code == code_unsupported_scheme
    then counts_unsupported_scheme
    else if code == code_unsupported_value
    then counts_unsupported_value
    else if code == code_unsupported_combo
    then counts_unsupported_combo
    else if code == code_invalid_uri
    then counts_invalid_uri
    else if code == code_missing_required_field
    then counts_missing_required_field
    else if code == code_duplicate_tag
    then counts_duplicate_tag
    else if code == code_wireguard_invalid
    then counts_wireguard_invalid
    else if code == code_masque_invalid
    then counts_masque_invalid
    else no_counter

unfoldable pub count_code : Counter → Summary → Summary
count_code counts_unsupported_scheme s = record s { unsupported_scheme = suc s.unsupported_scheme }
count_code counts_unsupported_value s = record s { unsupported_value = suc s.unsupported_value }
count_code counts_unsupported_combo s = record s { unsupported_combo = suc s.unsupported_combo }
count_code counts_invalid_uri s = record s { invalid_uri = suc s.invalid_uri }
count_code counts_missing_required_field s = record s {
  missing_required_field = suc s.missing_required_field;
}
count_code counts_duplicate_tag s = record s { duplicate_tag = suc s.duplicate_tag }
count_code counts_wireguard_invalid s = record s { wireguard_invalid = suc s.wireguard_invalid }
count_code counts_masque_invalid s = record s { masque_invalid = suc s.masque_invalid }
count_code no_counter s = s

-- Manifest.skip
unfoldable pub skip : {F : Type 0} → Skip → Manifest F → Manifest F
unfolding count_code counter_of
skip s m =
    let counted = record m.summary { skipped = suc m.summary.skipped } in
    record m { skipped = m.skipped ++ s ∷ []; summary = count_code (counter_of s.code) counted }

abbrev duplicate_skip : Normalized → Skip
duplicate_skip n = record {
  line = n.line;
  raw = n.raw;
  label = some n.label;
  code = code_duplicate_tag;
  reason = append "Duplicate generated outbound tag \"" (append n.tag "\".");
  details = [];
}

abbrev rejected_skip : Normalized → Error → Skip
rejected_skip n e = record {
  line = n.line;
  raw = n.raw;
  label = some n.label;
  code = code_unsupported_value;
  reason = "Xray rejected the outbound configuration.";
  details = e.message ∷ [];
}

-- The entry of a VLESS link.
abbrev pub entry_of : {F : Type 0} → Normalized → Spec → Entry F
entry_of n ob = record {
  kind = n.kind;
  protocol = "";
  tag = n.tag;
  label = n.label;
  profile = n.profile;
  line = n.line;
  country = n.country;
  city = n.city;
  normalized = n;
  json_outbound = ob;
  selection = none;
}

unfoldable pub keep : {F : Type 0} → Entry F → Manifest F → Manifest F
keep e m = record m {
  entries = m.entries ++ e ∷ [];
  summary = record m.summary { parsed = suc m.summary.parsed };
}

abbrev pub empty_manifest : {F : Type 0} → ℕ → String → String → Manifest F
empty_manifest n source_file now = record {
  version = 1;
  generated_at = now;
  source_file = source_file;
  entries = [];
  skipped = [];
  summary = zero_summary n;
}

module _ {F : Type 0} (b : Builder) where
  -- The last test of a line, and what it adds to the tags seen.
  build_entry : Normalized → Result Handler → List String × Manifest F → List String × Manifest F
  unfolding skip keep
  build_entry n (err e) (seen, m) = (seen, skip (rejected_skip n e) m)
  build_entry n (ok h) (seen, m) = (n.tag ∷ seen, keep (entry_of n (b.build n)) m)

  -- A line that parses: its skip by the normalizer, or its tests.
  build_link : Skip ⊎ Normalized → List String × Manifest F → List String × Manifest F
  unfolding skip build_entry
  build_link (inl s) (seen, m) = (seen, skip s m)
  build_link (inr n) (seen, m) =
      if contains seen n.tag
      then (seen, skip (duplicate_skip n) m)
      else build_entry n (b.to_proto (b.build n)) (seen, m)

  -- The loop of Build over lines, each behind the parser and the normalizer.
  unfoldable pub build_lines :
      List (Skip ⊎ Normalized) → List String × Manifest F → List String × Manifest F
  unfolding build_link
  build_lines [] acc = acc
  build_lines (line ∷ lines) acc = build_lines lines (build_link line acc)

  unfoldable pub build : List (Skip ⊎ Normalized) → String → String → Manifest F
  unfolding build_lines
  build lines source_file now =
      (build_lines lines ([], empty_manifest (length lines) source_file now)).1

-- Entry.SelectionCandidate
unfoldable pub selection_candidate : {F : Type 0} → Entry F → Candidate F
selection_candidate e = elim e.selection [
  | some c ↦ c
  | none ↦ record {
    tag = e.tag;
    label = e.label;
    entry = "";
    exit = "";
    load = none;
    score = none;
    key = 0;
    endpoint = "";
    transport = "";
    priority = 0;
  }
]
