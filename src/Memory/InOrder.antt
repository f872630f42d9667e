-- ===== src/Memory/InOrder.antt =====
-- internal/scd/state/state.go: replaceTunnels keeps the tunnels in the order of their sources.
use scd.Prelude.{
  Ordering, String, true, false, List, [], ◌∷◌, ◌++◌, ◌≡◌, ◌≢◌, sym, subst, inl, inr, string_eq,
  select, Bool-cases, All, All-map, All-append, compare_str, compare_str-total, compare_str_trans,
  ==→eq, arith,
}
use mathlib.Core.List.{append-nil}
use scd.Sort.{Sorted}
use scd.Memory.{Tunnel}
use scd.Memory.Tunnels.{after, of_source, other_tunnels, place_tunnels}
use scd.Memory.Placed.{All-of}

abbrev pub by_source : Tunnel → Tunnel → Ordering
by_source a b = compare_str a.mapping.source_id b.mapping.source_id

-- a comes no later than b.
abbrev Before : Tunnel → Tunnel → Type 0
Before a b = by_source a b ≢ Ordering.gt

other-All {κ} :
    (P : Tunnel → Type κ) (id : String) (tns : List Tunnel)
    → All P tns
    → All P (other_tunnels id tns)
unfolding other_tunnels select
other-All P id [] h = tt
other-All P id (tn ∷ tns) h = elim (Bool-cases (of_source id tn)) [
  | inl y ↦ rw y (other-All P id tns h.1)
  | inr own ↦ rw own (h.0, other-All P id tns h.1)
]

other-Sorted :
    (id : String) (tns : List Tunnel)
    → Sorted by_source tns
    → Sorted by_source (other_tunnels id tns)
unfolding other_tunnels select
other-Sorted id [] h = tt
other-Sorted id (tn ∷ tns) h = elim (Bool-cases (of_source id tn)) [
  | inl y ↦ rw y (other-Sorted id tns h.1)
  | inr own ↦ rw own (other-All (Before tn) id tns h.0, other-Sorted id tns h.1)
]

placed-All {κ} :
    (P : Tunnel → Type κ) (id : String) (fresh tns : List Tunnel)
    → All P fresh
    → All P tns
    → All P (place_tunnels id fresh tns)
unfolding place_tunnels
placed-All P id fresh [] f h = f
placed-All P id fresh (tn ∷ tns) f h = elim (Bool-cases (of_source id tn)) [
  | inl y ↦ rw y (placed-All P id fresh tns f h.1)
  | inr own ↦ elim (Bool-cases (after tn.mapping.source_id id)) [
    | inl z ↦
        rw (own, z) (All-append P fresh (tn ∷ other_tunnels id tns) f (h.0, other-All P id tns h.1))
    | inr z ↦ rw (own, z) (h.0, placed-All P id fresh tns f h.1)
  ]
]

-- The fresh tunnels before those of later sources.
fresh-Sorted :
    (id : String) (fresh tns : List Tunnel)
    → All-of id fresh
    → All (λ x. compare_str id x.mapping.source_id ≢ Ordering.gt) tns
    → Sorted by_source tns
    → Sorted by_source (fresh ++ tns)
fresh-Sorted id [] tns f h s = s
fresh-Sorted id (x ∷ fresh) tns f h s =
    let e = ==→eq x.mapping.source_id id f.0 in
    let from_x = λ (y : Tunnel) (k : compare_str id y.mapping.source_id ≢ Ordering.gt).
      subst (λ a. compare_str a y.mapping.source_id ≢ Ordering.gt) (sym e) k in
    (
      All-append (Before x) fresh tns (All-map (λ y k. from_x y (same_id y k)) fresh f.1)
          (All-map from_x tns h),
      fresh-Sorted id fresh tns f.1 h s,
    )
  where
    same_id :
        (y : Tunnel) → of_source id y ≡ true → compare_str id y.mapping.source_id ≢ Ordering.gt
    same_id y k g = compare_str-total id y.mapping.source_id g (
        subst (λ a. compare_str y.mapping.source_id a ≡ Ordering.gt)
          (==→eq y.mapping.source_id id k)
          (subst (λ a. compare_str a y.mapping.source_id ≡ Ordering.gt)
            (sym (==→eq y.mapping.source_id id k)) g))

after-Before : (a b : String) → after a b ≡ true → compare_str b a ≢ Ordering.gt
after-Before a b h = compare_str-total a b (ground arith)

not_after-Before : (a b : String) → after a b ≡ false → compare_str a b ≢ Ordering.gt
not_after-Before a b h g = ground arith

pub placed-Sorted :
    (id : String) (fresh tns : List Tunnel)
    → All-of id fresh
    → Sorted by_source tns
    → Sorted by_source (place_tunnels id fresh tns)
unfolding place_tunnels
placed-Sorted id fresh [] f s =
    subst (Sorted by_source) (append-nil fresh) (fresh-Sorted id fresh [] f tt tt)
placed-Sorted id fresh (tn ∷ tns) f s = elim (Bool-cases (of_source id tn)) [
  | inl y ↦ rw y (placed-Sorted id fresh tns f s.1)
  | inr own ↦ elim (Bool-cases (after tn.mapping.source_id id)) [
    | inl z ↦
        rw (own, z)
          (let le = after-Before tn.mapping.source_id id z in
            fresh-Sorted id fresh (tn ∷ other_tunnels id tns) f
              (
                le,
                other-All (λ x. compare_str id x.mapping.source_id ≢ Ordering.gt) id tns
                    (All-map
                      (λ x k. compare_str_trans id tn.mapping.source_id x.mapping.source_id le k)
                      tns s.0),
              )
              (other-All (Before tn) id tns s.0, other-Sorted id tns s.1))
    | inr z ↦
        rw (own, z)
          (
            placed-All (Before tn) id fresh tns
                (All-map
                  (λ x k.
                    subst (λ a. compare_str tn.mapping.source_id a ≢ Ordering.gt)
                      (sym (==→eq x.mapping.source_id id k))
                      (not_after-Before tn.mapping.source_id id z))
                  fresh f)
                s.0,
            placed-Sorted id fresh tns f s.1,
          )
  ]
]
