-- ===== src/Selection.antt =====
-- internal/scd/selection/selection.go: which candidates of a wireguard or masque source are active.
-- The type F with its operations stands for float64, which antt does not have.
pub mod Filters
pub mod Rank
pub mod Pick
pub mod Quarantine
pub mod Decide
use scd.Prelude.{
  ℕ, suc, ◌+◌, Ordering, String, Bool, true, false, not, ◌&&◌, Option, none, some, List, [], ◌∷◌,
  map, is_empty, contains, lookup, insert, compare_str, ◌==◌, nat_eq, string_eq, if◌then◌else◌,
}
use scd.Country
use scd.LabelFilter.{Filter, match}
use scd.Sort.{compare_nat, or_else, stable_sort}

-- The float64 operations that the code uses.
pub record Floats (F : Type 0) : Type 0 where
  -- cmp.Compare
  pub compare : F → F → Ordering
  pub lt : F → F → Bool
  pub le : F → F → Bool
  pub mul : F → F → F
  -- float64(n)
  pub of_int : ℕ → F

-- A key is an array of 32 bytes, read as a number.
pub record Candidate (F : Type 0) : Type 0 where
  pub tag : String
  pub label : String
  pub entry : String
  pub exit : String
  pub load : Option ℕ
  pub score : Option F
  pub key : ℕ
  pub endpoint : String
  pub transport : String
  pub priority : ℕ

-- config.SourceFiltersConfig
pub record SourceFilters : Type 0 where
  pub country_allowlist : List String
  pub entry_country_allowlist : List String
  pub label : Filter

pub data Reason : Type 0 where
  pass dropped_by_entry dropped_by_exit dropped_by_label : Reason

-- The strategies of config.SelectionConfig.
pub data Strategy : Type 0 where
  by_score by_load by_label : Strategy

abbrev iso_of : Option Country.Info → String
iso_of none = ""
iso_of (some i) = i.iso2

pub country_of : String → String → String
country_of meta label = if meta == "" then iso_of (Country.from_label label) else meta

-- A non-empty allowlist that lacks the country.
refuses : List String → String → Bool
refuses allowed c = not (is_empty allowed) && not (contains allowed c)

unfoldable pub filter : {F : Type 0} → Candidate F → Option SourceFilters → Reason
unfolding country_of refuses
filter c none = pass
filter c (some f) =
    if refuses f.entry_country_allowlist (country_of c.entry c.label)
    then dropped_by_entry
    else if refuses f.country_allowlist (country_of c.exit c.label)
    then dropped_by_exit
    else if not (match f.label c.label)
    then dropped_by_label
    else pass

-- A present sort key goes before a missing one.
or_nil {ℓ} : {A : Type ℓ} → (A → A → Ordering) → Option A → Option A → Ordering
or_nil cmp none none = Ordering.eq
or_nil cmp none (some b) = Ordering.gt
or_nil cmp (some a) none = Ordering.lt
or_nil cmp (some a) (some b) = cmp a b

empty_last : String → String → Ordering
empty_last a b =
    if a == ""
    then (if b == "" then compare_str a b else Ordering.gt)
    else if b == ""
    then Ordering.lt
    else compare_str a b

module _ {F : Type 0} (floats : Floats F) where
  names : Candidate F → Candidate F → Ordering
  unfolding empty_last
  names a b = or_else (empty_last a.label b.label) (compare_str a.tag b.tag)

  -- The comparison of the first sort of Rank.
  unfoldable pub by_strategy : Strategy → Candidate F → Candidate F → Ordering
  unfolding or_nil names
  by_strategy by_score a b =
      or_else (or_nil floats.compare a.score b.score)
        (or_else (or_nil compare_nat a.load b.load) (names a b))
  by_strategy by_load a b =
      or_else (or_nil compare_nat a.load b.load)
        (or_else (or_nil floats.compare a.score b.score) (names a b))
  by_strategy by_label a b = names a b

module _ {ℓ} {F : Type 0} {T : Type ℓ} (of : T → Candidate F) where
  -- pos[i] of one item and the map `first` after it.
  place : ℕ → Candidate F → List (ℕ × ℕ) → ℕ × List (ℕ × ℕ)
  place i c first =
      if c.transport == ""
      then (i, first)
      else elim (lookup c.key first) [ some f ↦ (f, first) | none ↦ (i, insert c.key i first) ]

  -- Every item behind its pos.
  unfoldable pub positions : ℕ → List (ℕ × ℕ) → List T → List (ℕ × T)
  unfolding place
  positions i first [] = []
  positions i first (it ∷ items) =
      let (p, first') = place i (of it) first in (p, it) ∷ positions (suc i) first' items

  -- The comparison of the second sort: by pos, then by priority.
  by_position : ℕ × T → ℕ × T → Ordering
  by_position (p, x) (q, y) =
      or_else (compare_nat p q) (compare_nat (of x).priority (of y).priority)

  unfoldable pub group : List T → List T
  unfolding positions by_position
  group items = map (λ pair. pair.1) (stable_sort by_position (positions 0 [] items))

  -- The loop of Pick after `taken` items, with the keys that they have.
  unfoldable pub pick_loop : ℕ → ℕ → List ℕ → List T → List T
  pick_loop max_active taken keys [] = []
  pick_loop max_active taken keys (it ∷ items) =
      let k = (of it).key in
      let skip = pick_loop max_active taken keys items in
      let take = it ∷ pick_loop max_active (suc taken) (k ∷ keys) items in
      if taken == max_active then [] else if contains keys k then skip else take

  unfoldable pub pick : List T → ℕ → List T
  unfolding pick_loop
  pick ranked max_active = pick_loop max_active 0 [] ranked

unfoldable pub rank {ℓ} :
    {F : Type 0} {T : Type ℓ} → Floats F → (T → Candidate F) → Strategy → List T → List T
unfolding by_strategy group
rank floats of strategy items =
    group of (stable_sort (λ x y. by_strategy floats strategy (of x) (of y)) items)
