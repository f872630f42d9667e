-- ===== src/Memory/Consistent.antt =====
-- internal/scd/state/state.go: the tunnels of a target agree with the topologies of its sources.
use scd.Prelude.{
  String, Option, none, some, List, [], ◌≡◌, ◌≢◌, refl, sym, ap, ◌∙◌, subst, inl, inr, ◌==◌,
  string_eq, map, lookup, insert, lookup-insert, select, Bool-cases, All, ==_refl, ==→eq,
  ==_false→ne, ne→==_false,
}
use scd.Topology
use scd.Sort.{Sorted}
use scd.Memory.{Tunnel, Source, Target}
use scd.Memory.Placed.{All-of, placed_self, placed_other}
use scd.Memory.InOrder.{by_source, placed-Sorted}
use scd.Memory.Tunnels.{of_source, place_tunnels}

abbrev pub base_ids : List Topology.Tunnel → List String
base_ids tns = map (λ tn. tn.base_tunnel_id) tns

abbrev pub bases : List Tunnel → List String
bases tns = map (λ tn. tn.mapping.base_tunnel_id) tns

abbrev pub topology_in : {F : Type 0} → Option (Source F) → List Topology.Tunnel
topology_in none = []
topology_in (some src) = elim src.topology [ none ↦ [] | some tns ↦ tns ]

-- The tunnels of each source are those of its topology, in order, and the sources stand in order.
pub record Agreed {F : Type 0} (sources : List (String × Source F)) (tunnels : List Tunnel)
    : Type 0 where
  pub agrees :
      (id : String)
      → bases (select (of_source id) tunnels) ≡ base_ids (topology_in (lookup id sources))
  pub named : (id : String) → All (λ tn. tn.source_id ≡ id) (topology_in (lookup id sources))
  pub ordered : Sorted by_source tunnels

abbrev pub Consistent : {F : Type 0} → Target F → Type 0
Consistent t = Agreed t.sources t.tunnels

module _ {F : Type 0} where
  -- A change of one source and of its tunnels.
  pub placed-Agreed :
      (id : String) (fresh : List Tunnel) (tunnels : List Tunnel)
      (sources changed : List (String × Source F))
      → All-of id fresh
      → bases fresh ≡ base_ids (topology_in (lookup id changed))
      → All (λ tn. tn.source_id ≡ id) (topology_in (lookup id changed))
      → ((other : String) → id ≢ other → lookup other changed ≡ lookup other sources)
      → Agreed sources tunnels
      → Agreed changed (place_tunnels id fresh tunnels)
  placed-Agreed id fresh tunnels sources changed mine same own others a = record {
    agrees = λ x. elim (Bool-cases (id == x)) [
      | inl y ↦
          subst
            (λ z.
              bases (select (of_source z) (place_tunnels id fresh tunnels))
              ≡ base_ids (topology_in (lookup z changed)))
            (==→eq id x y) (ap bases (placed_self id fresh tunnels mine) ∙ same)
      | inr n ↦
          let ne = ==_false→ne id x n in
          ap bases (placed_other id x fresh tunnels ne mine)
          ∙ (a.agrees x ∙ ap (λ o. base_ids (topology_in o)) (sym (others x ne)))
    ];
    named = λ x. elim (Bool-cases (id == x)) [
      | inl y ↦
          subst (λ z. All (λ tn. tn.source_id ≡ z) (topology_in (lookup z changed))) (==→eq id x y)
            own
      | inr n ↦
          subst (λ o. All (λ tn. tn.source_id ≡ x) (topology_in o))
            (sym (others x (==_false→ne id x n))) (a.named x)
    ];
    ordered = placed-Sorted id fresh tunnels mine a.ordered;
  }

  pub insert-others :
      (id : String) (src : Source F) (sources : List (String × Source F)) (other : String)
      → id ≢ other
      → lookup other (insert id src sources) ≡ lookup other sources
  insert-others id src sources other n =
      lookup-insert id other src sources ∙ rw (ne→==_false id other n) refl

  pub insert_self :
      (id : String) (src : Source F) (sources : List (String × Source F))
      → lookup id (insert id src sources) ≡ some src
  insert_self id src sources = lookup-insert id id src sources ∙ rw (==_refl id) refl

  -- The same, for a source that is stored with this topology.
  pub stored-Agreed :
      (id : String) (fresh : List Tunnel) (tunnels : List Tunnel)
      (sources : List (String × Source F)) (src : Source F) (tns : List Topology.Tunnel)
      → src.topology ≡ some tns
      → All-of id fresh
      → bases fresh ≡ base_ids tns
      → All (λ tn. tn.source_id ≡ id) tns
      → Agreed sources tunnels
      → Agreed (insert id src sources) (place_tunnels id fresh tunnels)
  stored-Agreed id fresh tunnels sources src tns e mine same own a =
      let found = ap topology_in (insert_self id src sources) ∙ topology_some src tns e in
      placed-Agreed id fresh tunnels sources (insert id src sources) mine
        (same ∙ ap base_ids (sym found)) (subst (All (λ tn. tn.source_id ≡ id)) (sym found) own)
        (insert-others id src sources) a
    where
      topology_some :
          (src : Source F) (tns : List Topology.Tunnel)
          → src.topology ≡ some tns
          → topology_in (some src) ≡ tns
      topology_some src tns e = rw e refl
