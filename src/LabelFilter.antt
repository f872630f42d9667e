-- ===== src/LabelFilter.antt =====
-- internal/common/labelfilter/labelfilter.go: the label filter of scd and sfc. A compiled regular
-- expression of the standard library is its matching function.
use scd.Prelude.{
  String, Bool, true, false, ◌&&◌, List, [], ◌∷◌, if◌then◌else◌, not, ◌≡◌, All, arith, ◌↔◌,
  is_empty,
}

-- regexp.Regexp
pub record Regexp : Type 0 where
  pub match_string : String → Bool

pub record Filter : Type 0 where
  pub include : List Regexp
  pub exclude : List Regexp
  pub include_src : List String
  pub exclude_src : List String

-- The loop over Include: the first expression that does not match ends it.
include_all : List Regexp → String → Bool
include_all [] label = true
include_all (re ∷ res) label = if not (re.match_string label) then false else include_all res label

-- The loop over Exclude: the first expression that matches ends it.
exclude_none : List Regexp → String → Bool
exclude_none [] label = true
exclude_none (re ∷ res) label = if re.match_string label then false else exclude_none res label

unfoldable pub match : Filter → String → Bool
unfolding include_all exclude_none
match f label = if include_all f.include label then exclude_none f.exclude label else false

unfoldable pub empty : Filter → Bool
empty f = is_empty f.include && is_empty f.exclude

include_all_iff :
    (res : List Regexp) (label : String)
    → (include_all res label ≡ true) ↔ All (λ re. re.match_string label ≡ true) res
unfolding include_all
include_all_iff [] label = ground arith
include_all_iff (re ∷ res) label = ground (arith, include_all_iff res label)

exclude_none_iff :
    (res : List Regexp) (label : String)
    → (exclude_none res label ≡ true) ↔ All (λ re. re.match_string label ≡ false) res
unfolding exclude_none
exclude_none_iff [] label = ground arith
exclude_none_iff (re ∷ res) label = ground (arith, exclude_none_iff res label)

-- A label matches exactly if every include expression matches it and no exclude expression does.
pub match_iff :
    (f : Filter) (label : String)
    → (match f label ≡ true) ↔ (
        All (λ re. re.match_string label ≡ true) f.include
        × All (λ re. re.match_string label ≡ false) f.exclude)
unfolding match
match_iff f label =
    ground (arith, include_all_iff f.include label, exclude_none_iff f.exclude label)

-- An empty filter matches every label.
pub match-empty : (f : Filter) (label : String) → empty f ≡ true → match f label ≡ true
unfolding empty match
match-empty f label h = ground arith
