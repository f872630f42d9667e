-- ===== src/Memory/Placed.antt =====
-- internal/scd/state/state.go: replaceTunnels puts the fresh tunnels of a source in place of its
-- old ones and leaves the others.
use scd.Prelude.{
  String, Bool, true, false, List, [], ◌∷◌, ◌++◌, ◌≡◌, ◌≢◌, refl, sym, ap, ◌∙◌, inl, inr, string_eq,
  select, Bool-cases, All, All-map, ==→eq, ne→==_false, arith,
}
use mathlib.Core.List.{append-nil}
use scd.Memory.{Tunnel}
use scd.Memory.Tunnels.{after, of_source, other_tunnels, place_tunnels}

abbrev pub All-of : String → List Tunnel → Type 0
All-of id = All (λ tn. of_source id tn ≡ true)

select-append :
    (p : Tunnel → Bool) (xs ys : List Tunnel) → select p (xs ++ ys) ≡ select p xs ++ select p ys
unfolding select
select-append p [] ys = refl
select-append p (x ∷ xs) ys = ground (arith, select-append p xs ys)

select_all : (p : Tunnel → Bool) (xs : List Tunnel) → All (λ x. p x ≡ true) xs → select p xs ≡ xs
unfolding select
select_all p [] h = refl
select_all p (x ∷ xs) h = ground (arith, h.0, select_all p xs h.1)

select_none : (p : Tunnel → Bool) (xs : List Tunnel) → All (λ x. p x ≡ false) xs → select p xs ≡ []
unfolding select
select_none p [] h = refl
select_none p (x ∷ xs) h = ground (arith, h.0, select_none p xs h.1)

select-nil : (p : Tunnel → Bool) → select p [] ≡ []
unfolding select
select-nil p = refl

select-skip :
    (p : Tunnel → Bool) (x : Tunnel) (xs : List Tunnel)
    → p x ≡ false
    → select p (x ∷ xs) ≡ select p xs
unfolding select
select-skip p x xs h = rw h refl

-- One more in front, on both sides.
select-cons :
    (p : Tunnel → Bool) (x : Tunnel) (xs ys : List Tunnel)
    → select p xs ≡ select p ys
    → select p (x ∷ xs) ≡ select p (x ∷ ys)
unfolding select
select-cons p x xs ys h = ground (arith, h)

-- The fresh tunnels before others.
select_fresh :
    (p : Tunnel → Bool) (fresh xs : List Tunnel)
    → All (λ tn. p tn ≡ true) fresh
    → select p (fresh ++ xs) ≡ fresh ++ select p xs
select_fresh p fresh xs h =
    select-append p fresh xs ∙ ap (λ l. l ++ select p xs) (select_all p fresh h)

select_foreign :
    (p : Tunnel → Bool) (fresh xs : List Tunnel)
    → All (λ tn. p tn ≡ false) fresh
    → select p (fresh ++ xs) ≡ select p xs
select_foreign p fresh xs h =
    select-append p fresh xs ∙ ap (λ l. l ++ select p xs) (select_none p fresh h)

other_self : (id : String) (tns : List Tunnel) → select (of_source id) (other_tunnels id tns) ≡ []
unfolding select other_tunnels
other_self id [] = refl
other_self id (tn ∷ tns) = ground (arith, other_self id tns)

differs :
    (id other : String) (tn : Tunnel)
    → id ≢ other
    → of_source id tn ≡ true
    → of_source other tn ≡ false
differs id other tn n h =
    ne→==_false tn.mapping.source_id other (λ e. n (sym (==→eq tn.mapping.source_id id h) ∙ e))

other_other :
    (id other : String) (tns : List Tunnel)
    → id ≢ other
    → select (of_source other) (other_tunnels id tns) ≡ select (of_source other) tns
unfolding select other_tunnels
other_other id other [] n = refl
other_other id other (tn ∷ tns) n = elim (Bool-cases (of_source id tn)) [
  | inl y ↦ rw (y, differs id other tn n y) (other_other id other tns n)
  | inr no_id ↦ rw no_id (ground (arith, other_other id other tns n))
]

-- The tunnels of the source after replaceTunnels are the fresh ones.
pub placed_self :
    (id : String) (fresh tns : List Tunnel)
    → All-of id fresh
    → select (of_source id) (place_tunnels id fresh tns) ≡ fresh
unfolding place_tunnels
placed_self id fresh [] h = select_all (of_source id) fresh h
placed_self id fresh (tn ∷ tns) h = elim (Bool-cases (of_source id tn)) [
  | inl y ↦ rw y (placed_self id fresh tns h)
  | inr own ↦ elim (Bool-cases (after tn.mapping.source_id id)) [
    | inl z ↦
        rw (own, z)
          (select_fresh (of_source id) fresh (tn ∷ other_tunnels id tns) h
            ∙ (ap (λ l. fresh ++ l)
                  (select-skip (of_source id) tn (other_tunnels id tns) own ∙ other_self id tns)
                ∙ append-nil fresh))
    | inr z ↦
        rw (own, z)
          (select-skip (of_source id) tn (place_tunnels id fresh tns) own
            ∙ placed_self id fresh tns h)
  ]
]

-- Those of another source are what they were.
pub placed_other :
    (id other : String) (fresh tns : List Tunnel)
    → id ≢ other
    → All-of id fresh
    → select (of_source other) (place_tunnels id fresh tns) ≡ select (of_source other) tns
unfolding place_tunnels
placed_other id other fresh [] n h =
    select_none (of_source other) fresh (All-map (λ tn. differs id other tn n) fresh h)
    ∙ sym (select-nil (of_source other))
placed_other id other fresh (tn ∷ tns) n h = elim (Bool-cases (of_source id tn)) [
  | inl y ↦ rw y (
      placed_other id other fresh tns n h
      ∙ sym (select-skip (of_source other) tn tns (differs id other tn n y)))
  | inr own ↦ elim (Bool-cases (after tn.mapping.source_id id)) [
    | inl z ↦
        rw (own, z)
          (select_foreign (of_source other) fresh (tn ∷ other_tunnels id tns)
              (All-map (λ tn. differs id other tn n) fresh h)
            ∙ select-cons (of_source other) tn (other_tunnels id tns) tns
                (other_other id other tns n))
    | inr z ↦
        rw (own, z)
          (select-cons (of_source other) tn (place_tunnels id fresh tns) tns
            (placed_other id other fresh tns n h))
  ]
]
