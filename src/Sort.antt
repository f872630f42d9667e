-- ===== src/Sort.antt =====
-- The standard library's sorting as the code uses it: slices.SortStableFunc, cmp.Or and cmp.Compare.
pub mod Order
use scd.Prelude.{ℕ, Ordering, ◌≡◌, refl, ◌≢◌, List, [], ◌∷◌, All, All-map, arith, Perm, ◌≤◌, ap}
use mathlib.Core.List.Perm
use Prim.Native.Nat.{compare}

-- cmp.Compare on integers.
abbrev pub compare_nat : ℕ → ℕ → Ordering
compare_nat a b = compare a b

-- cmp.Or on results of comparisons: the first that is not equal.
abbrev pub or_else : Ordering → Ordering → Ordering
or_else Ordering.lt o = Ordering.lt
or_else Ordering.eq o = o
or_else Ordering.gt o = Ordering.gt

module _ {ℓ} {A : Type ℓ} (cmp : A → A → Ordering) where
  -- An element goes before the first one that is not smaller, so equal ones keep their order.
  unfoldable pub insert_sorted : A → List A → List A
  insert_sorted x [] = x ∷ []
  insert_sorted x (y ∷ ys) = elim (cmp x y) [
    | Ordering.gt ↦ y ∷ insert_sorted x ys
    | _ ↦ x ∷ y ∷ ys
  ]

  unfoldable pub stable_sort : List A → List A
  unfolding insert_sorted
  stable_sort [] = []
  stable_sort (x ∷ xs) = insert_sorted x (stable_sort xs)

  abbrev pub Sorted : List A → Type ℓ
  Sorted [] = Unit
  Sorted (x ∷ xs) = All (λ y. cmp x y ≢ Ordering.gt) xs × Sorted xs

  insert_sorted-perm : (x : A) (xs : List A) → Perm (insert_sorted x xs) (x ∷ xs)
  unfolding insert_sorted
  insert_sorted-perm x [] = Perm.refl _
  insert_sorted-perm x (y ∷ ys) =
      elim (cmp x y)
        as (λ o.
          Perm (elim o [ Ordering.gt ↦ y ∷ insert_sorted x ys | _ ↦ x ∷ y ∷ ys ]) (x ∷ y ∷ ys)) [
            | Ordering.gt ↦ Perm.trans (Perm.cons y (insert_sorted-perm x ys)) (Perm.swap x y ys)
            | _ ↦ Perm.refl _
          ]

  pub stable_sort-perm : (xs : List A) → Perm (stable_sort xs) xs
  unfolding stable_sort
  stable_sort-perm [] = Perm.refl _
  stable_sort-perm (x ∷ xs) =
      Perm.trans (insert_sorted-perm x (stable_sort xs)) (Perm.cons x (stable_sort-perm xs))

  insert_sorted-All {κ} :
      (P : A → Type κ) (x : A) (xs : List A) → P x → All P xs → All P (insert_sorted x xs)
  unfolding insert_sorted
  insert_sorted-All P x [] p h = (p, tt)
  insert_sorted-All P x (y ∷ ys) p h =
      elim (cmp x y)
        as (λ o. All P (elim o [ Ordering.gt ↦ y ∷ insert_sorted x ys | _ ↦ x ∷ y ∷ ys ])) [
          | Ordering.gt ↦ (h.0, insert_sorted-All P x ys p h.1)
          | _ ↦ (p, h)
        ]

  pub stable_sort-All {κ} : (P : A → Type κ) (xs : List A) → All P xs → All P (stable_sort xs)
  unfolding stable_sort
  stable_sort-All P [] h = tt
  stable_sort-All P (x ∷ xs) h =
      insert_sorted-All P x (stable_sort xs) h.0 (stable_sort-All P xs h.1)

  insert_sorted-front :
      (x : A) (xs : List A) → All (λ y. cmp x y ≢ Ordering.gt) xs → insert_sorted x xs ≡ (x ∷ xs)
  unfolding insert_sorted
  insert_sorted-front x [] h = refl
  insert_sorted-front x (y ∷ ys) h = ground arith

  -- A list that is in order already stays as it is.
  pub stable_sort-eq_of_Sorted : (xs : List A) → Sorted xs → stable_sort xs ≡ xs
  unfolding stable_sort
  stable_sort-eq_of_Sorted [] h = refl
  stable_sort-eq_of_Sorted (x ∷ xs) h =
      rw (stable_sort-eq_of_Sorted xs h.1) (insert_sorted-front x xs h.0)
