-- ===== src/Selection/Rank.antt =====
-- internal/scd/selection/selection.go: Rank.
pub mod Plain
pub mod Lowest
use mathlib.Core.List.Perm
use scd.Prelude.{
  ℕ, zero, suc, ◌+◌, ◌≤◌, ◌≡◌, ◌≢◌, refl, sym, ap, ◌∙◌, subst, Bool, true, false, List, [], ◌∷◌,
  map, Perm, Option, none, some, arith, ◌==◌, nat_eq, string_eq, All, All-map, lookup, insert,
  Ordering, Bool-cases, Option-cases, inl, inr, if◌then◌else◌, lookup-insert,
}
use scd.Sort.{
  Sorted, stable_sort, stable_sort-perm, stable_sort-All, stable_sort-eq_of_Sorted, or_else,
  compare_nat,
}
use scd.Sort.Order.{IsOrder, stable_sort-Sorted}
use scd.Selection.{
  Candidate, Floats, Strategy, by_strategy, place, positions, by_position, group, rank,
}

module _ {ℓ} {F : Type 0} {T : Type ℓ} (of : T → Candidate F) where
  pub map-positions :
      (i : ℕ) (first : List (ℕ × ℕ)) (items : List T)
      → map (λ pair. pair.1) (positions of i first items) ≡ items
  unfolding positions
  map-positions i first [] = refl
  map-positions i first (it ∷ items) =
      let (p, first') = place of i (of it) first in
      ap (λ l. it ∷ l) (map-positions (suc i) first' items)

  group-perm : (items : List T) → Perm (group of items) items
  unfolding group
  group-perm items =
      subst (Perm (group of items)) (map-positions 0 [] items)
        (Perm.map _ (stable_sort-perm (by_position of) (positions of 0 [] items)))

  -- Ranking only reorders the candidates.
  pub rank-perm :
      (floats : Floats F) (strategy : Strategy) (items : List T)
      → Perm (rank floats of strategy items) items
  unfolding rank
  rank-perm floats strategy items = Perm.trans (group-perm _) (stable_sort-perm _ items)

  by_position-IsOrder : IsOrder (by_position of)
  unfolding by_position
  by_position-IsOrder = record {
    total = λ (p, x) (q, y) h. ground arith;
    trans = λ (p, x) (q, y) (r, z) h k. ground arith;
  }

  -- The map `first` after all items.
  final : ℕ → List (ℕ × ℕ) → List T → List (ℕ × ℕ)
  final i first [] = first
  final i first (it ∷ items) =
      let (p, first') = place of i (of it) first in final (suc i) first' items

  -- A candidate with a transport, so one of masque.
  abbrev pub Masque : T → Type 0
  Masque it = ((of it).transport == "") ≡ false

  place_keeps :
      (i k p : ℕ) (c : Candidate F) (first : List (ℕ × ℕ))
      → lookup k first ≡ some p
      → lookup k (place of i c first).1 ≡ some p
  unfolding place
  place_keeps i k p c first h = ground (arith, lookup-insert c.key k i first)

  place_records :
      (i : ℕ) (it : T) (first : List (ℕ × ℕ))
      → Masque it
      → lookup (of it).key (place of i (of it) first).1 ≡ some (place of i (of it) first).0
  unfolding place
  place_records i it first h = ground (arith, lookup-insert (of it).key (of it).key i first)

  final_keeps :
      (i k p : ℕ) (first : List (ℕ × ℕ)) (items : List T)
      → lookup k first ≡ some p
      → lookup k (final i first items) ≡ some p
  unfolding final
  final_keeps i k p first [] h = h
  final_keeps i k p first (it ∷ items) h =
      final_keeps (suc i) k p _ items (place_keeps i k p (of it) first h)

  -- The pos of a masque candidate is the one that the map has for its key.
  abbrev Placed : List (ℕ × ℕ) → ℕ × T → Type 0
  Placed m (p, it) = Masque it → lookup (of it).key m ≡ some p

  positions-Placed :
      (i : ℕ) (first : List (ℕ × ℕ)) (items : List T)
      → All (Placed (final i first items)) (positions of i first items)
  unfolding positions final
  positions-Placed i first [] = tt
  positions-Placed i first (it ∷ items) = (
    λ h. final_keeps (suc i) _ _ _ items (place_records i it first h),
    positions-Placed (suc i) _ items,
  )

  -- Of two masque candidates of one key the earlier one has no greater priority number.
  abbrev pub InOrder : T → T → Type 0
  InOrder x y = Masque x → Masque y → (of x).key ≡ (of y).key → (of x).priority ≤ (of y).priority

  abbrev pub ByPriority : List T → Type 0
  ByPriority [] = Unit
  ByPriority (x ∷ xs) = All (InOrder x) xs × ByPriority xs

  in_order :
      (m : List (ℕ × ℕ)) (a b : ℕ × T)
      → Placed m a
      → Placed m b
      → by_position of a b ≢ Ordering.gt
      → InOrder a.1 b.1
  unfolding by_position
  in_order m (p, x) (q, y) ha hb h mx my k =
      let same : some p ≡ some q = sym (ha mx) ∙ ap (λ t. lookup t m) k ∙ hb my in ground arith

  InOrder-all :
      (m : List (ℕ × ℕ)) (a : ℕ × T) (pairs : List (ℕ × T))
      → Placed m a
      → All (Placed m) pairs
      → All (λ b. by_position of a b ≢ Ordering.gt) pairs
      → All (InOrder a.1) (map (λ pair. pair.1) pairs)
  InOrder-all m a [] ha hs h = tt
  InOrder-all m a (b ∷ pairs) ha hs h =
      (in_order m a b ha hs.0 h.0, InOrder-all m a pairs ha hs.1 h.1)

  pairs-ByPriority :
      (m : List (ℕ × ℕ)) (pairs : List (ℕ × T))
      → All (Placed m) pairs
      → Sorted (by_position of) pairs
      → ByPriority (map (λ pair. pair.1) pairs)
  pairs-ByPriority m [] hs h = tt
  pairs-ByPriority m (a ∷ pairs) hs h =
      (InOrder-all m a pairs hs.0 hs.1 h.0, pairs-ByPriority m pairs hs.1 h.1)

  group-ByPriority : (items : List T) → ByPriority (group of items)
  unfolding group
  group-ByPriority items =
      pairs-ByPriority (final 0 [] items) _
        (stable_sort-All (by_position of) (Placed (final 0 [] items)) _
          (positions-Placed 0 [] items))
        (stable_sort-Sorted (by_position of) by_position-IsOrder _)

  -- Whatever the strategy, the masque candidates of one key are ranked by priority, 0 first.
  pub rank-ByPriority :
      (floats : Floats F) (strategy : Strategy) (items : List T)
      → ByPriority (rank floats of strategy items)
  unfolding rank
  rank-ByPriority floats strategy items = group-ByPriority _
