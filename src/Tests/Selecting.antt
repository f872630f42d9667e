-- ===== src/Tests/Selecting.antt =====
-- Ranking, picking and filtering (internal/scd/selection, country, labelfilter) at concrete inputs.
use scd.Prelude.{
  ℕ, ◌*◌, ◌≤◌, ◌<◌, ◌≡◌, refl, ◌↔◌, String, true, false, some, List, [], ◌∷◌, map, arith, nat_eq,
  string_eq, ltb, leb, contains, has_prefix, length, take, lookup, Distinct, All,
}
use scd.Country
use scd.Country.Codes.{from_iso2-iso2}
use scd.LabelFilter.{match, match_iff}
use scd.Sort.{compare_nat, stable_sort}
use scd.Selection.{
  Candidate, Floats, SourceFilters, by_score, by_load, by_strategy, pass, dropped_by_entry,
  dropped_by_exit, dropped_by_label, country_of, filter, pick, pick_loop, rank,
}
use scd.Selection.Filters.{Allows, filter_iff}
use scd.Selection.Pick.{key_of, firsts, pick-eq_take, pick-Distinct, pick_complete}
use scd.Selection.Rank.{InOrder, ByPriority, rank-ByPriority}
use scd.Selection.Rank.Plain.{rank-Plain}
use scd.Selection.Rank.Lowest.{pick-rank_lowest}

-- Whole numbers in place of float64.
abbrev pub whole : Floats ℕ
whole = record { compare = compare_nat; lt = ltb; le = leb; mul = λ a b. a * b; of_int = λ n. n }

abbrev pub masque_line : String → ℕ → String → ℕ → Candidate ℕ
masque_line tag key transport priority = record {
  tag = tag;
  label = "🇩🇪 Berlin";
  entry = "DE";
  exit = "";
  load = some 10;
  score = some 7;
  key = key;
  endpoint = "198.51.100.1:443";
  transport = transport;
  priority = priority;
}

abbrev pub three_lines : List (Candidate ℕ)
three_lines =
    masque_line "m-1" 5 "h2" 1 ∷ masque_line "m-2" 5 "h3" 0 ∷ masque_line "m-3" 6 "h2" 0 ∷ []

abbrev pub plain_lines : List (Candidate ℕ)
plain_lines = masque_line "w-2" 8 "" 0 ∷ masque_line "w-1" 9 "" 0 ∷ []

abbrev pub itself : Candidate ℕ → Candidate ℕ
itself c = c

abbrev german : SourceFilters
german = record {
  country_allowlist = "DE" ∷ [];
  entry_country_allowlist = [];
  label = record {
    include = record { match_string = λ s. has_prefix s "🇩🇪" } ∷ [];
    exclude = [];
    include_src = "^🇩🇪" ∷ [];
    exclude_src = [];
  };
}

picks_of_key_5 :
    pick itself three_lines 2 ≡ masque_line "m-1" 5 "h2" 1 ∷ masque_line "m-3" 6 "h2" 0 ∷ []
unfolding pick pick_loop contains
picks_of_key_5 = refl

pick-eq_take_example : pick itself three_lines 2 ≡ take 2 (firsts itself [] three_lines)
pick-eq_take_example = pick-eq_take itself three_lines 2

pick-Distinct_example :
    Distinct (map (key_of itself) (pick itself three_lines 2))
    × (length (pick itself three_lines 2) ≤ 2)
pick-Distinct_example = pick-Distinct itself three_lines 2

two_picked : length (pick itself three_lines 3) < 3
unfolding pick pick_loop contains
two_picked = omega arith

pick_complete_example :
    All
      (λ it. contains (map (key_of itself) (pick itself three_lines 3)) (key_of itself it) ≡ true)
      three_lines
pick_complete_example = pick_complete itself three_lines 3 two_picked

rank-ByPriority_example : ByPriority itself (rank whole itself by_load three_lines)
rank-ByPriority_example = rank-ByPriority itself whole by_load three_lines

pick-rank_lowest_example :
    All
      (λ x. All (InOrder itself x) (rank whole itself by_score three_lines))
      (pick itself (rank whole itself by_score three_lines) 1)
pick-rank_lowest_example = pick-rank_lowest itself whole by_score three_lines 1

rank-Plain_example :
    rank whole itself by_score plain_lines
    ≡ stable_sort (λ x y. by_strategy whole by_score x y) plain_lines
rank-Plain_example = rank-Plain itself whole by_score plain_lines (refl, (refl, tt))

filter_iff_example :
    let c = masque_line "m-1" 5 "h2" 1 in
    let entry = Allows [] (country_of c.entry c.label) in
    let exit = Allows ("DE" ∷ []) (country_of c.exit c.label) in
    ((filter c (some german) ≡ pass) ↔ (entry × exit × (match german.label c.label ≡ true)))
    × ((filter c (some german) ≡ dropped_by_entry) ↔ (¬ entry))
    × ((filter c (some german) ≡ dropped_by_exit) ↔ (entry × (¬ exit)))
    × ((filter c (some german) ≡ dropped_by_label)
        ↔ (entry × exit × (match german.label c.label ≡ false)))
filter_iff_example = filter_iff (masque_line "m-1" 5 "h2" 1) german

match_iff_example : (match german.label "🇩🇪 Berlin" ≡ true) ↔ (
    All (λ re. re.match_string "🇩🇪 Berlin" ≡ true) german.label.include
    × All (λ re. re.match_string "🇩🇪 Berlin" ≡ false) german.label.exclude)
match_iff_example = match_iff german.label "🇩🇪 Berlin"

abbrev germany : Country.Info
germany = record { emoji = "🇩🇪"; iso2 = "DE"; name_en = "Germany"; name_ru = "Германия" }

finds_germany : Country.from_iso2 "DE" ≡ some germany
unfolding Country.from_iso2 Country.from_label lookup
finds_germany = refl

from_iso2-iso2_example : germany.iso2 ≡ "DE"
from_iso2-iso2_example = from_iso2-iso2 "DE" germany finds_germany
