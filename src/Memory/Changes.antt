-- ===== src/Memory/Changes.antt =====
-- internal/scd/state/state.go: the operations keep a target consistent, in whatever order they come.
use scd.Prelude.{
  String, Option, none, some, List, [], ◌∷◌, ◌≡◌, ◌≢◌, refl, sym, ap, ◌∙◌, subst, inl, inr, ◌==◌,
  string_eq, map, lookup, insert, remove_key, lookup-remove_key, select, Bool-cases, Option-cases,
  All, ==_refl, ==→eq, ==_false→ne, ne→==_false,
}
use scd.Xray.{Kind}
use scd.Topology
use scd.Apply.Plan.{Hashes}
use scd.Memory.{Source, Target, new_target}
use scd.Memory.Fresh.{owned-All, made-All-of, made-bases, made-bases_own, by_id-Stands, slotted-All}
use scd.Memory.Consistent.{
  Consistent, Agreed, bases, base_ids, topology_in, placed-Agreed, stored-Agreed, insert_self,
  insert-others,
}
use scd.Memory.Tunnels.{
  of_source, replace_tunnels, owned_by, applied, fresh_tunnel, replace_source_topology, slotted,
  by_id, slot_source, slot_replaced, replace_source_tunnel, drop_source_tunnels,
  reset_source_hashes, drop_source,
}

module _ {F : Type 0} where
  applied-topology :
      (old : Option (Source F)) (hashes : List (Kind × String)) (tns : List Topology.Tunnel)
      → (applied old hashes tns).topology ≡ some tns
  applied-topology none hashes tns = refl
  applied-topology (some old) hashes tns = refl

module _ {F : Type 0} where
  replace_source_topology-Consistent :
      (id : String) (topo : List Topology.Tunnel) (hashes : List (Kind × String)) (t : Target F)
      → Consistent t
      → Consistent (replace_source_topology id topo hashes t)
  unfolding replace_source_topology replace_tunnels fresh_tunnel
  replace_source_topology-Consistent id topo hashes t c =
      let tns = map (owned_by id) topo in
      let src = applied (lookup id t.sources) hashes tns in
      stored-Agreed id _ t.tunnels t.sources src tns
        (applied-topology (lookup id t.sources) hashes tns)
        (made-All-of id _ tns (λ tn e. e) (owned-All id topo)) (made-bases id _ tns (λ tn. refl))
        (owned-All id topo) c

module _ {F : Type 0} where
  same-Consistent :
      (id : String) (src new : Source F) (t : Target F)
      → lookup id t.sources ≡ some src
      → new.topology ≡ src.topology
      → Consistent t
      → Agreed (insert id new t.sources) t.tunnels
  same-Consistent id src new t found e c = record {
    agrees = λ x. c.agrees x ∙ ap base_ids (sym (same x));
    named = λ x. subst (All (λ tn. tn.source_id ≡ x)) (sym (same x)) (c.named x);
    ordered = c.ordered;
  }
    where
      stored : topology_in (some new) ≡ topology_in (some src)
      stored = ap (λ o. elim o [ none ↦ [] | some tns ↦ tns ]) e

      same :
          (x : String)
          → topology_in (lookup x (insert id new t.sources)) ≡ topology_in (lookup x t.sources)
      same x = elim (Bool-cases (id == x)) [
        | inl y ↦
            subst
              (λ z.
                topology_in (lookup z (insert id new t.sources)) ≡ topology_in (lookup z t.sources))
              (==→eq id x y)
              (ap topology_in (insert_self id new t.sources)
                ∙ (stored ∙ sym (ap topology_in found)))
        | inr n ↦ ap topology_in (insert-others id new t.sources x (==_false→ne id x n))
      ]

  reset_source_hashes-Consistent :
      (id : String) (t : Target F) → Consistent t → Consistent (reset_source_hashes id t)
  unfolding reset_source_hashes
  reset_source_hashes-Consistent id t c = elim (Option-cases (lookup id t.sources)) [
    | inl n ↦ rw n c
    | inr (src, e) ↦ rw e (same-Consistent id src (record src { hashes = [] }) t e refl c)
  ]

  drop_source_tunnels-Consistent :
      (id : String) (t : Target F) → Consistent t → Consistent (drop_source_tunnels id t)
  unfolding drop_source_tunnels replace_tunnels
  drop_source_tunnels-Consistent id t c = elim (Option-cases (lookup id t.sources)) [
    | inl n ↦ rw n c
    | inr (src, e) ↦ rw e (
        stored-Agreed id [] t.tunnels t.sources (record src { topology = some []; hashes = [] }) []
          refl tt refl tt c)
  ]

  removed_self :
      (id : String) (sources : List (String × Source F)) → lookup id (remove_key id sources) ≡ none
  removed_self id sources = lookup-remove_key id id sources ∙ rw (==_refl id) refl

  pub removed-others :
      (id : String) (sources : List (String × Source F)) (other : String)
      → id ≢ other
      → lookup other (remove_key id sources) ≡ lookup other sources
  removed-others id sources other n =
      lookup-remove_key id other sources ∙ rw (ne→==_false id other n) refl

  drop_source-Consistent :
      (id : String) (t : Target F) → Consistent t → Consistent (drop_source id t)
  unfolding drop_source replace_tunnels
  drop_source-Consistent id t c = elim (Option-cases (lookup id t.sources)) [
    | inl n ↦ rw n c
    | inr (src, e) ↦ rw e (
        placed-Agreed id [] t.tunnels t.sources (remove_key id t.sources) tt
          (ap (λ o. base_ids (topology_in o)) (sym (removed_self id t.sources)))
          (subst (λ o. All (λ tn. tn.source_id ≡ id) (topology_in o))
            (sym (removed_self id t.sources)) tt)
          (removed-others id t.sources) c)
  ]

module _ {F : Type 0} (hash : Hashes) where
  replace_source_tunnel-Consistent :
      (id old : String) (next : Option Topology.Tunnel) (t : Target F)
      → Consistent t
      → Consistent (replace_source_tunnel hash id old next t)
  unfolding replace_source_tunnel replace_tunnels slot_source
  replace_source_tunnel-Consistent id old next t c = elim (Option-cases (lookup id t.sources)) [
    | inl n ↦ rw n c
    | inr (src, e) ↦ elim (Option-cases src.topology) [
      | inl n ↦ rw (e, n) c
      | inr (topo, f) ↦ rw (e, f) (slot_replaced-Consistent src topo (owned src topo e f))
    ]
  ]
    where
      owned :
          (src : Source F) (topo : List Topology.Tunnel)
          → lookup id t.sources ≡ some src
          → src.topology ≡ some topo
          → All (λ tn. tn.source_id ≡ id) topo
      owned src topo e f =
          subst (All (λ tn. tn.source_id ≡ id))
            (ap topology_in e ∙ ap (λ o. elim o [ none ↦ [] | some tns ↦ tns ]) f) (c.named id)

      slot_replaced-Consistent :
          (src : Source F) (topo : List Topology.Tunnel)
          → All (λ tn. tn.source_id ≡ id) topo
          → Consistent (slot_replaced hash id old next src topo t)
      slot_replaced-Consistent src topo own =
          let tns = slotted id old next topo in
          let all = slotted-All id old next topo own in
          let (mine, same) =
            made-bases_own id (by_id id next t.tunnels) tns (by_id-Stands id next t.tunnels) all in
          stored-Agreed id _ t.tunnels t.sources (slot_source hash id old tns src) tns refl mine
            same all c

-- The operations on the sources of a target.
pub data Change : Type 0 where
  new_topology : String → List Topology.Tunnel → List (Kind × String) → Change
  new_slot : String → String → Option Topology.Tunnel → Change
  no_tunnels no_hashes forget : String → Change

abbrev pub changed_source : Change → String
changed_source (new_topology id topo hashes) = id
changed_source (new_slot id old next) = id
changed_source (no_tunnels id) = id
changed_source (no_hashes id) = id
changed_source (forget id) = id

module _ {F : Type 0} (hash : Hashes) where
  abbrev pub change : Change → Target F → Target F
  change (new_topology id topo hashes) t = replace_source_topology id topo hashes t
  change (new_slot id old next) t = replace_source_tunnel hash id old next t
  change (no_tunnels id) t = drop_source_tunnels id t
  change (no_hashes id) t = reset_source_hashes id t
  change (forget id) t = drop_source id t

  abbrev pub run : List Change → Target F → Target F
  run [] t = t
  run (c ∷ cs) t = run cs (change c t)

  change-Consistent : (c : Change) (t : Target F) → Consistent t → Consistent (change c t)
  change-Consistent (new_topology id topo hashes) t h =
      replace_source_topology-Consistent id topo hashes t h
  change-Consistent (new_slot id old next) t h =
      replace_source_tunnel-Consistent hash id old next t h
  change-Consistent (no_tunnels id) t h = drop_source_tunnels-Consistent id t h
  change-Consistent (no_hashes id) t h = reset_source_hashes-Consistent id t h
  change-Consistent (forget id) t h = drop_source-Consistent id t h

  run_from-Consistent : (cs : List Change) (t : Target F) → Consistent t → Consistent (run cs t)
  run_from-Consistent [] t h = h
  run_from-Consistent (c ∷ cs) t h = run_from-Consistent cs (change c t) (change-Consistent c t h)

  -- Whatever operations change the sources of a new target, in whatever order: the tunnels of each
  -- source are those of its topology, in its order, a source that is not there has none, and the
  -- tunnels stand in the order of their sources' ids, as the monitor relies on.
  pub run-Consistent : (cs : List Change) → Consistent (run cs new_target)
  unfolding new_target
  run-Consistent cs =
      run_from-Consistent cs _
        (record { agrees = λ id. none_agree id; named = λ id. none_named id; ordered = tt })
    where
      none_agree :
          (id : String)
          → bases (select (of_source id) []) ≡ base_ids (topology_in {F = F} (lookup id []))
      none_agree id = unfold select lookup in refl

      none_named :
          (id : String) → All (λ tn. tn.source_id ≡ id) (topology_in {F = F} (lookup id []))
      none_named id = unfold lookup in tt
