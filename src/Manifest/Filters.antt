-- ===== src/Manifest/Filters.antt =====
-- internal/scd/manifest/filter.go and candidates.go: the filters of a source on its entries.
use scd.Prelude.{
  ℕ, suc, ◌+◌, Bool, true, not, ◌&&◌, Option, none, some, List, [], ◌∷◌, string_eq, contains,
  is_empty, length, if◌then◌else◌,
}
use scd.Country
use scd.LabelFilter.{match, empty}
use scd.Selection.{SourceFilters, pass, dropped_by_entry, dropped_by_exit, dropped_by_label, filter}
use scd.Manifest.{Entry, Manifest, selection_candidate}

-- What the loop of a filter counts.
pub record Kept (F : Type 0) : Type 0 where
  pub kept : List (Entry F)
  pub by_country : ℕ
  pub by_label : ℕ

abbrev pub no_country : SourceFilters → Option Country.Info → Bool
no_country f none = true
no_country f (some i) = not (contains f.country_allowlist i.iso2)

-- The tests of ApplyFilters on an entry.
pub data Verdict : Type 0 where
  passes wrong_country wrong_label : Verdict

unfoldable pub verdict : {F : Type 0} → SourceFilters → Entry F → Verdict
verdict f e =
    if not (is_empty f.country_allowlist) && no_country f e.country
    then wrong_country
    else if not (match f.label e.label)
    then wrong_label
    else passes

-- The same for ApplyCandidateFilters.
unfoldable pub candidate_verdict : {F : Type 0} → SourceFilters → Entry F → Verdict
candidate_verdict f e = elim (filter (selection_candidate e) (some f)) [
  | pass ↦ passes
  | dropped_by_label ↦ wrong_label
  | dropped_by_entry ↦ wrong_country
  | dropped_by_exit ↦ wrong_country
]

unfoldable pub keep_entry : {F : Type 0} → Verdict → Entry F → Kept F → Kept F
keep_entry passes e k = record k { kept = e ∷ k.kept }
keep_entry wrong_country e k = record k { by_country = suc k.by_country }
keep_entry wrong_label e k = record k { by_label = suc k.by_label }

unfoldable pub filter_entries : {F : Type 0} → (Entry F → Verdict) → List (Entry F) → Kept F
unfolding keep_entry
filter_entries v [] = record { kept = []; by_country = 0; by_label = 0 }
filter_entries v (e ∷ es) = keep_entry (v e) e (filter_entries v es)

unfoldable pub with_kept : {F : Type 0} → Kept F → Manifest F → Manifest F
with_kept k m = record m {
  entries = k.kept;
  summary = record m.summary {
    parsed = length k.kept;
    filtered = k.by_country + k.by_label;
    filtered_by_country = k.by_country;
    filtered_by_label_regex = k.by_label;
  };
}

unfoldable pub apply_filters : {F : Type 0} → Manifest F → Option SourceFilters → Manifest F
unfolding with_kept filter_entries
apply_filters m none = m
apply_filters m (some f) =
    if is_empty f.country_allowlist && empty f.label
    then m
    else with_kept (filter_entries (verdict f) m.entries) m

unfoldable pub apply_candidate_filters :
    {F : Type 0} → Manifest F → Option SourceFilters → Manifest F
unfolding with_kept filter_entries
apply_candidate_filters m none = m
apply_candidate_filters m (some f) = with_kept (filter_entries (candidate_verdict f) m.entries) m
