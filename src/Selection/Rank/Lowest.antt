-- ===== src/Selection/Rank/Lowest.antt =====
-- internal/scd/selection/selection.go: Rank and Pick together.
use scd.Prelude.{
  ℕ, suc, zero, ◌≡◌, false, true, List, [], ◌∷◌, arith, nat_eq, contains, All, Bool-cases, inl, inr,
  take,
}
use scd.Selection.{Candidate, Floats, Strategy, pick, rank}
use scd.Selection.Pick.{firsts, firsts_fresh, firsts_old, firsts_new, pick-eq_take}
use scd.Selection.Rank.{InOrder, ByPriority, rank-ByPriority}

module _ {ℓ} {F : Type 0} {T : Type ℓ} (of : T → Candidate F) where
  take-All {κ} : (P : T → Type κ) (n : ℕ) (items : List T) → All P items → All P (take n items)
  take-All P zero items h = tt
  take-All P (suc n) [] h = tt
  take-All P (suc n) (x ∷ items) h = (h.0, take-All P n items h.1)

  -- An item of another key is in order with any other.
  InOrder-of_fresh :
      (it x : T) (keys : List ℕ)
      → contains ((of it).key ∷ keys) (of x).key ≡ false
      → InOrder of x it
  unfolding contains
  InOrder-of_fresh it x keys h mx mi k = ground arith

  widen :
      (it : T) (keys : List ℕ) (items xs : List T)
      → All (λ x. contains ((of it).key ∷ keys) (of x).key ≡ false) xs
      → All (λ x. All (InOrder of x) items) xs
      → All (λ x. All (InOrder of x) (it ∷ items)) xs
  widen it keys items [] h k = tt
  widen it keys items (x ∷ xs) h k =
      ((InOrder-of_fresh it x keys h.0, k.0), widen it keys items xs h.1 k.1)

  widen_seen :
      (it : T) (keys : List ℕ) (items xs : List T)
      → contains keys (of it).key ≡ true
      → All (λ x. contains keys (of x).key ≡ false) xs
      → All (λ x. All (InOrder of x) items) xs
      → All (λ x. All (InOrder of x) (it ∷ items)) xs
  widen_seen it keys items [] seen h k = tt
  widen_seen it keys items (x ∷ xs) seen h k =
      (((λ mx mi e. cc (seen, h.0, e)), k.0), widen_seen it keys items xs seen h.1 k.1)

  firsts_lowest :
      (keys : List ℕ) (items : List T)
      → ByPriority of items
      → All (λ x. All (InOrder of x) items) (firsts of keys items)
  firsts_lowest keys [] h = unfold firsts in tt
  firsts_lowest keys (it ∷ items) h = elim (Bool-cases (contains keys (of it).key)) [
    | inl seen ↦ rw (firsts_old of keys it items seen) (
        widen_seen it keys items _ seen (firsts_fresh of keys items) (firsts_lowest keys items h.1))
    | inr new ↦ rw (firsts_new of keys it items new) (
      ((λ m m' e. omega arith), h.0),
      widen it keys items _ (firsts_fresh of ((of it).key ∷ keys) items)
          (firsts_lowest ((of it).key ∷ keys) items h.1),
    )
  ]

  -- Of the candidates with one masque key, the one that Rank and Pick choose has the lowest
  -- priority of all of them.
  pub pick-rank_lowest :
      (floats : Floats F) (strategy : Strategy) (items : List T) (max : ℕ)
      → let ranked = rank floats of strategy items in
        All (λ x. All (InOrder of x) ranked) (pick of ranked max)
  pick-rank_lowest floats strategy items max =
      let ranked = rank floats of strategy items in
      rw (pick-eq_take of ranked max)
        (take-All _ max _ (firsts_lowest [] ranked (rank-ByPriority of floats strategy items)))
