-- ===== src/Memory/Fresh.antt =====
-- internal/scd/state/state.go: the tunnels that stand for the members of a topology.
use scd.Prelude.{
  String, Bool, true, false, ◌&&◌, Option, none, some, List, [], ◌∷◌, ◌≡◌, refl, inl, inr, ◌==◌,
  string_eq, map, if◌then◌else◌, select, Bool-cases, All, All-append, ==→eq, arith, any, find_last,
  and_true,
}
use scd.Topology
use scd.Sort.{stable_sort-All}
use scd.Memory.{Tunnel}
use scd.Memory.Placed.{All-of}
use scd.Memory.Consistent.{bases, base_ids}
use scd.Memory.Tunnels.{
  of_source, owned_by, port_order, next_of, slotted, named_tunnel, held, by_id,
}

pub owned-All :
    (id : String) (topo : List Topology.Tunnel)
    → All (λ tn. tn.source_id ≡ id) (map (owned_by id) topo)
owned-All id [] = tt
owned-All id (tn ∷ tns) = (refl, owned-All id tns)

-- Tunnels made for the members of a topology, one for each.
module _ (id : String) (make : Topology.Tunnel → Tunnel) where
  pub made-All-of :
      (tns : List Topology.Tunnel)
      → ((tn : Topology.Tunnel) → tn.source_id ≡ id → (make tn).mapping.source_id ≡ id)
      → All (λ tn. tn.source_id ≡ id) tns
      → All-of id (map make tns)
  made-All-of [] h own = tt
  made-All-of (tn ∷ tns) h own =
      ((string_eq.beq_iff (make tn).mapping.source_id id).1 (h tn own.0), made-All-of tns h own.1)

  pub made-bases :
      (tns : List Topology.Tunnel)
      → ((tn : Topology.Tunnel) → (make tn).mapping.base_tunnel_id ≡ tn.base_tunnel_id)
      → bases (map make tns) ≡ base_ids tns
  made-bases [] h = refl
  made-bases (tn ∷ tns) h = λ i. h tn i ∷ made-bases tns h i

-- A tunnel that is found has the source and the id asked for.
find_last-holds :
    (p : Tunnel → Bool) (xs : List Tunnel) (x : Tunnel) → find_last p xs ≡ some x → p x ≡ true
unfolding find_last
find_last-holds p [] x h = cc
find_last-holds p (y ∷ ys) x h = ground (arith, find_last-holds p ys x)

-- The tunnel that stands for a member of the topology has its source and its id.
abbrev pub Stands : String → Topology.Tunnel → Tunnel → Type 0
Stands id tn x = (x.mapping.source_id ≡ id) × (x.mapping.base_tunnel_id ≡ tn.base_tunnel_id)

held-Stands :
    (id : String) (tns : List Tunnel) (tn : Topology.Tunnel) (o : Option Tunnel)
    → tn.source_id ≡ id
    → ((x : Tunnel) → o ≡ some x → named_tunnel id tn.base_tunnel_id tns ≡ some x)
    → Stands id tn (held o tn)
held-Stands id tns tn none e h = (e, refl)
held-Stands id tns tn (some x) e h =
    let both = and_true _ _ (found x (h x refl)) in
    (==→eq x.mapping.source_id id both.0, ==→eq x.mapping.base_tunnel_id tn.base_tunnel_id both.1)
  where
    found :
        (x : Tunnel)
        → named_tunnel id tn.base_tunnel_id tns ≡ some x
        → (of_source id x && x.mapping.base_tunnel_id == tn.base_tunnel_id) ≡ true
    found x k =
        find_last-holds (λ y. of_source id y && y.mapping.base_tunnel_id == tn.base_tunnel_id) tns x
          (unfold named_tunnel in k)

pub by_id-Stands :
    (id : String) (next : Option Topology.Tunnel) (tns : List Tunnel) (tn : Topology.Tunnel)
    → tn.source_id ≡ id
    → Stands id tn (by_id id next tns tn)
unfolding by_id
by_id-Stands id next tns tn e = held-Stands id tns tn _ e (
    chosen (any (λ n. n.base_tunnel_id == tn.base_tunnel_id) (next_of id next))
      (named_tunnel id tn.base_tunnel_id tns))
  where
    chosen :
        (c : Bool) (o : Option Tunnel) (x : Tunnel) → (if c then none else o) ≡ some x → o ≡ some x
    chosen true o x k = cc
    chosen false o x k = k

select-All {κ} :
    (P : Topology.Tunnel → Type κ) (p : Topology.Tunnel → Bool) (xs : List Topology.Tunnel)
    → All P xs
    → All P (select p xs)
unfolding select
select-All P p [] h = tt
select-All P p (x ∷ xs) h = elim (Bool-cases (p x)) [
  | inl y ↦ rw y (h.0, select-All P p xs h.1)
  | inr n ↦ rw n (select-All P p xs h.1)
]

pub slotted-All :
    (id old : String) (next : Option Topology.Tunnel) (topo : List Topology.Tunnel)
    → All (λ tn. tn.source_id ≡ id) topo
    → All (λ tn. tn.source_id ≡ id) (slotted id old next topo)
unfolding slotted
slotted-All id old next topo h =
    stable_sort-All port_order (λ tn. tn.source_id ≡ id) _
      (All-append (λ tn. tn.source_id ≡ id) _ (next_of id next)
        (select-All (λ tn. tn.source_id ≡ id) _ topo h) (next_own next))
  where
    next_own : (next : Option Topology.Tunnel) → All (λ tn. tn.source_id ≡ id) (next_of id next)
    next_own none = tt
    next_own (some tn) = (refl, tt)

pub made-bases_own :
    (id : String) (make : Topology.Tunnel → Tunnel) (tns : List Topology.Tunnel)
    → ((tn : Topology.Tunnel) → tn.source_id ≡ id → Stands id tn (make tn))
    → All (λ tn. tn.source_id ≡ id) tns
    → All-of id (map make tns) × (bases (map make tns) ≡ base_ids tns)
made-bases_own id make [] h own = (tt, refl)
made-bases_own id make (tn ∷ tns) h own =
    let (a, b) = h tn own.0 in
    let (m, e) = made-bases_own id make tns h own.1 in
    (((string_eq.beq_iff (make tn).mapping.source_id id).1 a, m), λ i. b i ∷ e i)
