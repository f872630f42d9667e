-- ===== src/Config/Cycles/Walks.antt =====
-- internal/scd/config/rules.go: dependencies ends. Each step of the walk sees a node that was not seen.
use scd.Prelude.{
  ℕ, zero, suc, ◌≤◌, ◌<◌, String, true, false, Option, some, List, [], ◌∷◌, ◌++◌, ◌≡◌, refl, inl,
  inr, string_eq, if◌then◌else◌, length, Among, All, Bool-cases, contains, arith,
}
use scd.Config.Cycles.{Edges, targets, Walked, walk_all, walk, edge_ends, dependencies}
use scd.Config.Cycles.Ends.{targets-Among, All-self}

-- How many of the nodes are not seen.
abbrev fresh : List String → List String → ℕ
fresh seen [] = 0
fresh seen (v ∷ vs) = if contains seen v then fresh seen vs else suc (fresh seen vs)

abbrev Sees : List String → List String → Type 0
Sees xs ys = (v : String) → contains xs v ≡ true → contains ys v ≡ true

fresh-le-length : (seen vs : List String) → fresh seen vs ≤ length vs
fresh-le-length seen [] = omega arith
fresh-le-length seen (v ∷ vs) = ground (arith, fresh-le-length seen vs)

fresh-le : (xs ys vs : List String) → Sees xs ys → fresh ys vs ≤ fresh xs vs
fresh-le xs ys [] h = omega arith
fresh-le xs ys (v ∷ vs) h = ground (arith, h v, fresh-le xs ys vs h)

contains-cons :
    (xs : List String) (d v : String) → contains xs v ≡ true → contains (d ∷ xs) v ≡ true
unfolding contains
contains-cons xs d v h = ground arith

contains-head : (xs : List String) (d : String) → contains (d ∷ xs) d ≡ true
unfolding contains
contains-head xs d = ground (arith, string_eq.beq_iff d d)

fresh-lt :
    (d : String) (xs vs : List String)
    → Among d vs
    → contains xs d ≡ false
    → fresh (d ∷ xs) vs < fresh xs vs
fresh-lt d xs [] a n = elim a [ ]
fresh-lt d xs (v ∷ vs) (inl p) n =
    ground (arith, contains-head xs d, fresh-le xs (d ∷ xs) vs (contains-cons xs d), p)
fresh-lt d xs (v ∷ vs) (inr a) n = ground (arith, contains-cons xs d v, fresh-lt d xs vs a n)

abbrev Ended : Walked → Option Walked → Type 0
Ended w o = (w' : Walked) × (o ≡ some w') × Sees w.seen w'.seen

module _ (us : List String) (n : ℕ) (go : String → Walked → Option Walked)
    (ends : (d : String) (w : Walked) → fresh w.seen us < n → Ended w (go d w)) where
  one-Ended :
      (d : String) (w : Walked)
      → Among d us
      → fresh w.seen us ≤ n
      → Ended w (
          if contains w.seen d
          then some w
          else go d (record { seen = d ∷ w.seen; out = w.out ++ d ∷ [] }))
  one-Ended d w a h = elim (Bool-cases (contains w.seen d)) [
    | inl y ↦ rw y (w, refl, λ v k. k)
    | inr no_d ↦
        let (w', e, s) =
          ends d (record { seen = d ∷ w.seen; out = w.out ++ d ∷ [] })
            (omega (arith, fresh-lt d w.seen us a no_d)) in
        rw no_d (w', e, λ v k. s v (contains-cons w.seen d v k))
  ]

  walk_all-Ended :
      (ds : List String) (w : Walked)
      → All (λ v. Among v us) ds
      → fresh w.seen us ≤ n
      → Ended w (walk_all go ds w)
  unfolding walk_all
  walk_all-Ended [] w a h = (w, refl, λ v k. k)
  walk_all-Ended (d ∷ ds) w a h =
      let (w1, e1, s1) = one-Ended d w a.0 h in
      let (w2, e2, s2) = walk_all-Ended ds w1 a.1 (omega (arith, fresh-le w.seen w1.seen us s1)) in
      (w2, rw e1 e2, λ v k. s2 v (s1 v k))

walk-Ended :
    (us : List String) (edges : Edges)
    → ((id : String) → All (λ v. Among v us) (targets edges id))
    → (fuel : ℕ) (id : String) (w : Walked) → fresh w.seen us < fuel
    → Ended w (walk edges fuel id w)
unfolding walk
walk-Ended us edges closed zero id w h = elim h [ ]
walk-Ended us edges closed (suc fuel) id w h =
    walk_all-Ended us fuel (walk edges fuel) (walk-Ended us edges closed fuel) (targets edges id) w
      (closed id) (omega arith)

pub dependencies-ends :
    (id : String) (edges : Edges) → (ids : List String) × (dependencies id edges ≡ some ids)
unfolding dependencies
dependencies-ends id edges =
    let us = edge_ends edges in
    let closed : (id : String) → All (λ v. Among v us) (targets edges id) =
      λ id. All-self (targets edges id) us (λ v a. targets-Among id v edges a) in
    let (w, e, s) =
      walk-Ended us edges closed (suc (length us)) id (record { seen = id ∷ []; out = [] })
        (omega (arith, fresh-le-length (id ∷ []) us)) in
    (w.out, rw e refl)
