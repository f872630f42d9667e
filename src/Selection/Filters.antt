-- ===== src/Selection/Filters.antt =====
-- internal/scd/selection/selection.go: Filter.
use scd.Prelude.{
  String, ◌≡◌, ◌↔◌, ◌⊎◌, true, false, List, [], ◌∷◌, some, arith, contains, string_eq,
}
use scd.LabelFilter.{match}
use scd.Selection.{
  Candidate, SourceFilters, pass, dropped_by_entry, dropped_by_exit, dropped_by_label, refuses,
  country_of, filter,
}

-- A country passes an allowlist that is empty or names it.
abbrev pub Allows : List String → String → Type 0
Allows allowed c = (allowed ≡ []) ⊎ (contains allowed c ≡ true)

refuses_iff : (allowed : List String) (c : String) → (refuses allowed c ≡ false) ↔ Allows allowed c
unfolding refuses
refuses_iff [] c = ground arith
refuses_iff (x ∷ xs) c = ground arith

-- The three filters run in order: a candidate passes exactly if both countries are allowed and the
-- label matches, and otherwise the reason names the first filter that it fails.
pub filter_iff :
    {F : Type 0} (c : Candidate F) (f : SourceFilters)
    → let entry = Allows f.entry_country_allowlist (country_of c.entry c.label) in
      let exit = Allows f.country_allowlist (country_of c.exit c.label) in
      ((filter c (some f) ≡ pass) ↔ (entry × exit × (match f.label c.label ≡ true)))
      × ((filter c (some f) ≡ dropped_by_entry) ↔ (¬ entry))
      × ((filter c (some f) ≡ dropped_by_exit) ↔ (entry × (¬ exit)))
      × ((filter c (some f) ≡ dropped_by_label) ↔ (entry × exit × (match f.label c.label ≡ false)))
unfolding filter
filter_iff c f = ground (
  arith,
  refuses_iff f.entry_country_allowlist (country_of c.entry c.label),
  refuses_iff f.country_allowlist (country_of c.exit c.label),
)
