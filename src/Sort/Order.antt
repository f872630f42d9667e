-- ===== src/Sort/Order.antt =====
-- internal/scd/selection/decide.go: sorting by an order (slices.SortStableFunc).
use scd.Prelude.{Ordering, ◌≢◌, ◌≡◌, List, [], ◌∷◌, All, All-map, refl}
use scd.Sort.{Sorted, stable_sort, insert_sorted, insert_sorted-All}

-- What a comparison has to satisfy for its sort to be an order: of two elements one is not the
-- greater, and "not greater" is transitive.
pub record IsOrder {ℓ} {A : Type ℓ} (cmp : A → A → Ordering) : Type ℓ where
  pub total : (a b : A) → cmp a b ≡ Ordering.gt → cmp b a ≢ Ordering.gt
  pub trans : (a b c : A) → cmp a b ≢ Ordering.gt → cmp b c ≢ Ordering.gt → cmp a c ≢ Ordering.gt

module _ {ℓ} {A : Type ℓ} (cmp : A → A → Ordering) (order : IsOrder cmp) where
  insert_sorted-Sorted : (x : A) (xs : List A) → Sorted cmp xs → Sorted cmp (insert_sorted cmp x xs)
  unfolding insert_sorted
  insert_sorted-Sorted x [] h = (tt, tt)
  insert_sorted-Sorted x (y ∷ ys) h =
      (elim (cmp x y)
          as (λ o.
            cmp x y ≡ o
            → Sorted cmp (elim o [ Ordering.gt ↦ y ∷ insert_sorted cmp x ys | _ ↦ x ∷ y ∷ ys ])) [
              | Ordering.gt ↦ λ e. (
                insert_sorted-All cmp (λ z. cmp y z ≢ Ordering.gt) x ys (order.total x y e) h.0,
                insert_sorted-Sorted x ys h.1,
              )
              | Ordering.lt ↦ λ e. (before (λ g. cc), h)
              | Ordering.eq ↦ λ e. (before (λ g. cc), h)
            ])
        refl
    where
      before : cmp x y ≢ Ordering.gt → All (λ z. cmp x z ≢ Ordering.gt) (y ∷ ys)
      before n = (n, All-map (λ z. order.trans x y z n) ys h.0)

  pub stable_sort-Sorted : (xs : List A) → Sorted cmp (stable_sort cmp xs)
  unfolding stable_sort
  stable_sort-Sorted [] = tt
  stable_sort-Sorted (x ∷ xs) = insert_sorted-Sorted x (stable_sort cmp xs) (stable_sort-Sorted xs)
