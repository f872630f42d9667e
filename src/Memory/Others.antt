-- ===== src/Memory/Others.antt =====
-- internal/scd/state/state.go: a change of one source leaves the tunnels and the state of the others.
use scd.Prelude.{
  String, Option, none, some, List, [], ◌≡◌, ◌≢◌, refl, ap, ◌∙◌, subst, inl, inr, string_eq, map,
  lookup, select, Option-cases, All,
}
use scd.Topology
use scd.Xray.{Kind}
use scd.Apply.Plan.{Hashes}
use scd.Memory.{Source, Target}
use scd.Memory.Placed.{placed_other}
use scd.Memory.Fresh.{owned-All, made-All-of, made-bases_own, by_id-Stands, slotted-All}
use scd.Memory.Consistent.{Consistent, topology_in, insert-others}
use scd.Memory.Tunnels.{
  of_source, replace_tunnels, owned_by, fresh_tunnel, replace_source_topology, slotted, by_id,
  slot_source, replace_source_tunnel, drop_source_tunnels, reset_source_hashes, drop_source,
}
use scd.Memory.Changes.{
  Change, new_topology, new_slot, no_tunnels, no_hashes, forget, changed_source, change,
  removed-others,
}

-- What a target knows of a source: its state, and its tunnels with their monitors.
abbrev pub Same : {F : Type 0} → String → Target F → Target F → Type 0
Same other t u =
    (lookup other u.sources ≡ lookup other t.sources)
    × (select (of_source other) u.tunnels ≡ select (of_source other) t.tunnels)

module _ {F : Type 0} (other : String) where
  unhashed-Same :
      (id : String) (t : Target F) → id ≢ other → Same other t (reset_source_hashes id t)
  unfolding reset_source_hashes
  unhashed-Same id t n = elim (Option-cases (lookup id t.sources)) [
    | inl e ↦ rw e (refl, refl)
    | inr (src, e) ↦ rw e (insert-others id _ t.sources other n, refl)
  ]

  emptied-Same : (id : String) (t : Target F) → id ≢ other → Same other t (drop_source_tunnels id t)
  unfolding drop_source_tunnels replace_tunnels
  emptied-Same id t n = elim (Option-cases (lookup id t.sources)) [
    | inl e ↦ rw e (refl, refl)
    | inr (src, e) ↦
        rw e (insert-others id _ t.sources other n, placed_other id other [] t.tunnels n tt)
  ]

  forgotten-Same : (id : String) (t : Target F) → id ≢ other → Same other t (drop_source id t)
  unfolding drop_source replace_tunnels
  forgotten-Same id t n = elim (Option-cases (lookup id t.sources)) [
    | inl e ↦ rw e (refl, refl)
    | inr (src, e) ↦
        rw e (removed-others id t.sources other n, placed_other id other [] t.tunnels n tt)
  ]

  topology-Same :
      (id : String) (topo : List Topology.Tunnel) (hashes : List (Kind × String)) (t : Target F)
      → id ≢ other
      → Same other t (replace_source_topology id topo hashes t)
  unfolding replace_source_topology replace_tunnels fresh_tunnel
  topology-Same id topo hashes t n = (
    insert-others id _ t.sources other n,
    placed_other id other _ t.tunnels n
        (made-All-of id _ (map (owned_by id) topo) (λ tn e. e) (owned-All id topo)),
  )

module _ {F : Type 0} (hash : Hashes) (other : String) where
  slot-Same :
      (id old : String) (next : Option Topology.Tunnel) (t : Target F)
      → id ≢ other
      → Consistent t
      → Same other t (replace_source_tunnel hash id old next t)
  unfolding replace_source_tunnel replace_tunnels slot_source
  slot-Same id old next t n c = elim (Option-cases (lookup id t.sources)) [
    | inl e ↦ rw e (refl, refl)
    | inr (src, e) ↦ elim (Option-cases src.topology) [
      | inl f ↦ rw (e, f) (refl, refl)
      | inr (topo, f) ↦
          rw (e, f)
            (
              insert-others id _ t.sources other n,
              placed_other id other _ t.tunnels n
                  (made-bases_own id (by_id id next t.tunnels) (slotted id old next topo)
                    (by_id-Stands id next t.tunnels)
                    (slotted-All id old next topo (owned src topo e f))).0,
            )
    ]
  ]
    where
      owned :
          (src : Source F) (topo : List Topology.Tunnel)
          → lookup id t.sources ≡ some src
          → src.topology ≡ some topo
          → All (λ tn. tn.source_id ≡ id) topo
      owned src topo e f =
          subst (All (λ tn. tn.source_id ≡ id))
            (ap topology_in e ∙ ap (λ o. elim o [ none ↦ [] | some tns ↦ tns ]) f) (c.named id)

  -- A change of one source of a consistent target leaves what the target knows of every other source:
  -- its state, and its tunnels with what their monitors hold, in order.
  pub change-Same :
      (c : Change) (t : Target F)
      → changed_source c ≢ other
      → Consistent t
      → Same other t (change hash c t)
  change-Same (new_topology id topo hashes) t n h = topology-Same other id topo hashes t n
  change-Same (new_slot id old next) t n h = slot-Same id old next t n h
  change-Same (no_tunnels id) t n h = emptied-Same other id t n
  change-Same (no_hashes id) t n h = unhashed-Same other id t n
  change-Same (forget id) t n h = forgotten-Same other id t n
