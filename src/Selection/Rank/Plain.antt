-- ===== src/Selection/Rank/Plain.antt =====
-- internal/scd/selection/selection.go: Rank of candidates without a transport (wireguard).
use scd.Prelude.{
  ℕ, suc, ◌≤◌, ◌≡◌, ◌≢◌, true, List, [], ◌∷◌, arith, ◌==◌, nat_eq, string_eq, All, All-map,
  Ordering,
}
use scd.Sort.{Sorted, stable_sort, stable_sort-All, stable_sort-eq_of_Sorted}
use scd.Selection.{
  Candidate, Floats, Strategy, by_strategy, place, positions, by_position, group, rank,
}
use scd.Selection.Rank.{map-positions}

module _ {ℓ} {F : Type 0} {T : Type ℓ} (of : T → Candidate F) where
  abbrev pub Plain : T → Type 0
  Plain it = ((of it).transport == "") ≡ true

  place-Plain :
      (i : ℕ) (it : T) (first : List (ℕ × ℕ)) → Plain it → place of i (of it) first ≡ (i, first)
  unfolding place
  place-Plain i it first h = rw h

  positions-Plain :
      (i : ℕ) (first : List (ℕ × ℕ)) (it : T) (items : List T)
      → Plain it
      → positions of i first (it ∷ items) ≡ (i, it) ∷ positions of (suc i) first items
  unfolding positions
  positions-Plain i first it items h = rw (place-Plain i it first h)

  positions_above :
      (i : ℕ) (first : List (ℕ × ℕ)) (items : List T)
      → All Plain items
      → All (λ pair. i ≤ pair.0) (positions of i first items)
  positions_above i first [] h = unfold positions in tt
  positions_above i first (it ∷ items) h =
      rw (positions-Plain i first it items h.0)
        (omega arith, All-map (λ pair l. omega arith) _ (positions_above (suc i) first items h.1))

  not_after :
      (i : ℕ) (it : T) (pair : ℕ × T) → suc i ≤ pair.0 → by_position of (i, it) pair ≢ Ordering.gt
  unfolding by_position
  not_after i it (q, x) h = ground arith

  positions-Sorted :
      (i : ℕ) (first : List (ℕ × ℕ)) (items : List T)
      → All Plain items
      → Sorted (by_position of) (positions of i first items)
  positions-Sorted i first [] h = unfold positions in tt
  positions-Sorted i first (it ∷ items) h = rw (positions-Plain i first it items h.0) (
    All-map (not_after i it) _ (positions_above (suc i) first items h.1),
    positions-Sorted (suc i) first items h.1,
  )

  group-Plain : (items : List T) → All Plain items → group of items ≡ items
  unfolding group
  group-Plain items h =
      rw (stable_sort-eq_of_Sorted (by_position of) _ (positions-Sorted 0 [] items h))
        (map-positions of 0 [] items)

  -- Without transports (wireguard) the ranking is the stable sort by the strategy alone.
  pub rank-Plain :
      (floats : Floats F) (strategy : Strategy) (items : List T)
      → All Plain items
      → rank floats of strategy items
        ≡ stable_sort (λ x y. by_strategy floats strategy (of x) (of y)) items
  unfolding rank
  rank-Plain floats strategy items h = group-Plain _ (stable_sort-All _ Plain items h)
