-- ===== src/Manifest/Filtered.antt =====
-- internal/scd/manifest: ApplyFilters and applyCandidateFilters.
use scd.Prelude.{
  ◌+◌, ◌≡◌, refl, ◌∙◌, and_true, ◌↔◌, ◌⊎◌, inl, inr, String, Bool, true, false, not, ◌||◌, ◌&&◌,
  Option, none, some, List, [], ◌∷◌, arith, string_eq, contains, is_empty, length, select,
  Bool-cases,
}
use scd.Country
use scd.LabelFilter.{empty, match, match-empty}
use scd.Selection.{SourceFilters, pass, filter}
use scd.Manifest.{Entry, Manifest, selection_candidate}
use scd.Manifest.Filters.{
  passes, wrong_country, wrong_label, Verdict, verdict, candidate_verdict, keep_entry,
  filter_entries, with_kept, no_country, apply_filters, apply_candidate_filters,
}

abbrev pub is_passes : Verdict → Bool
is_passes passes = true
is_passes wrong_country = false
is_passes wrong_label = false

filter_entries_lem :
    {F : Type 0} (v : Entry F → Verdict) (es : List (Entry F))
    → let k = filter_entries v es in
      (k.kept ≡ select (λ e. is_passes (v e)) es)
      × (length k.kept + (k.by_country + k.by_label) ≡ length es)
unfolding filter_entries keep_entry select
filter_entries_lem v [] = (refl, refl)
filter_entries_lem v (e ∷ es) = ground (arith, filter_entries_lem v es)

-- The country of the entry is on the allowlist, or the list is empty.
abbrev pub HasCountry : SourceFilters → Option Country.Info → Type 0
HasCountry f none = f.country_allowlist ≡ []
HasCountry f (some i) = (f.country_allowlist ≡ []) ⊎ (contains f.country_allowlist i.iso2 ≡ true)

-- The summary counts the entries and the skipped lines, and every line is an entry, skipped or filtered.
abbrev pub Counted : {F : Type 0} → Manifest F → Type 0
Counted m =
    (m.summary.parsed ≡ length m.entries)
    × (m.summary.skipped ≡ length m.skipped)
    × (m.summary.total_lines ≡ (m.summary.parsed + m.summary.filtered) + m.summary.skipped)

with_kept-Counted :
    {F : Type 0} (v : Entry F → Verdict) (m : Manifest F)
    → Counted m
    → m.summary.filtered ≡ 0
    → let k = filter_entries v m.entries in
      Counted (with_kept k m) × ((with_kept k m).entries ≡ select (λ e. is_passes (v e)) m.entries)
unfolding with_kept
with_kept-Counted v m c z =
    let (kept, total) = filter_entries_lem v m.entries in
    ((refl, c.1, omega (arith, total, c.0, c.2, z)), kept)

-- The country is known and on the list, or the list is empty.
abbrev pub listed : List String → Option Country.Info → Bool
listed allowed none = is_empty allowed
listed allowed (some i) = is_empty allowed || contains allowed i.iso2

listed_all :
    (allowed : List String) (o : Option Country.Info)
    → is_empty allowed ≡ true
    → listed allowed o ≡ true
listed_all allowed none e = e
listed_all allowed (some i) e = ground (arith, e)

no_country_lem :
    (f : SourceFilters) (o : Option Country.Info)
    → (not (is_empty f.country_allowlist) && no_country f o) ≡ not (listed f.country_allowlist o)
no_country_lem f none = ground arith
no_country_lem f (some i) = ground arith

-- The three kinds of entry of ApplyFilters.
kinds_lem :
    {F : Type 0} (f : SourceFilters) (es : List (Entry F))
    → let k = filter_entries (verdict f) es in
      (k.kept ≡ select (λ e. listed f.country_allowlist e.country && match f.label e.label) es)
      × (k.by_country ≡ length (select (λ e. not (listed f.country_allowlist e.country)) es))
      × (k.by_label
          ≡ length (
              select (λ e. listed f.country_allowlist e.country && not (match f.label e.label)) es))
unfolding filter_entries keep_entry select verdict length
kinds_lem f [] = (refl, refl, refl)
kinds_lem f (e ∷ es) = ground (arith, kinds_lem f es, no_country_lem f e.country)

-- Empty filters drop nothing.
pass_all :
    {F : Type 0} (f : SourceFilters) (es : List (Entry F))
    → is_empty f.country_allowlist ≡ true
    → empty f.label ≡ true
    → (es ≡ select (λ e. listed f.country_allowlist e.country && match f.label e.label) es)
      × (0 ≡ length (select (λ e. not (listed f.country_allowlist e.country)) es))
      × (0
          ≡ length (
              select (λ e. listed f.country_allowlist e.country && not (match f.label e.label)) es))
unfolding select length
pass_all f [] a l = (refl, refl, refl)
pass_all f (e ∷ es) a l = ground (
  arith,
  match-empty f.label e.label l,
  pass_all f es a l,
  listed_all f.country_allowlist e.country a,
)

-- ApplyFilters keeps, in order, exactly the entries whose label matches and whose country is known and
-- on the allowlist, which lists all if it is empty. It counts as filtered by country those with another
-- country or with none, and as filtered by label the others that it drops. If every line of the
-- manifest was counted and none as filtered, then afterwards every line is still counted once: as an
-- entry, as filtered or as skipped.
pub apply_filters-Counted :
    {F : Type 0} (m : Manifest F) (f : SourceFilters)
    → Counted m
    → m.summary.filtered ≡ 0
    → m.summary.filtered_by_country ≡ 0
    → m.summary.filtered_by_label_regex ≡ 0
    → let m' = apply_filters m (some f) in
      Counted m'
      × (m'.entries
          ≡ select (λ e. listed f.country_allowlist e.country && match f.label e.label) m.entries)
      × (m'.summary.filtered_by_country
          ≡ length (select (λ e. not (listed f.country_allowlist e.country)) m.entries))
      × (m'.summary.filtered_by_label_regex
          ≡ length (
              select
                (λ e. listed f.country_allowlist e.country && not (match f.label e.label))
                m.entries))
unfolding apply_filters with_kept
apply_filters-Counted m f c z x label_zero =
    elim (Bool-cases (is_empty f.country_allowlist && empty f.label)) [
      | inr n ↦
          let (kept, country, label) = kinds_lem f m.entries in
          rw n ((with_kept-Counted (verdict f) m c z).0, kept, country, label)
      | inl y ↦ rw y (
          let (a, l) = and_true _ _ y in
          let (kept, country, label) = pass_all f m.entries a l in
          (c, kept, x ∙ country, label_zero ∙ label))
    ]

is_passes_candidate :
    {F : Type 0} (f : SourceFilters) (e : Entry F)
    → (is_passes (candidate_verdict f e) ≡ true) ↔ (filter (selection_candidate e) (some f) ≡ pass)
unfolding candidate_verdict
is_passes_candidate f e = ground arith

-- The filters of a wireguard or masque source keep exactly the candidates that selection.Filter
-- passes, in order. If every line of the manifest was counted and none as filtered, then afterwards
-- every line is still counted once: as an entry, as filtered or as skipped.
pub apply_candidate_filters-Counted :
    {F : Type 0} (m : Manifest F) (f : SourceFilters)
    → Counted m
    → m.summary.filtered ≡ 0
    → Counted (apply_candidate_filters m (some f))
      × ((apply_candidate_filters m (some f)).entries
          ≡ select (λ e. is_passes (candidate_verdict f e)) m.entries)
unfolding apply_candidate_filters
apply_candidate_filters-Counted m f c z = with_kept-Counted (candidate_verdict f) m c z
