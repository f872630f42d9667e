-- ===== src/Memory/Tunnels.antt =====
-- internal/scd/state/state.go: the replacement of the topology and of the tunnels of a source.
use scd.Prelude.{
  suc, Ordering, String, Bool, true, false, not, ◌&&◌, ◌||◌, Option, none, some, List, [], ◌∷◌,
  ◌++◌, ◌==◌, string_eq, map, if◌then◌else◌, lookup, insert, remove_key, is_empty, compare_str,
  select, find_last, any,
}
use scd.Sort.{compare_nat, stable_sort}
use scd.Xray.{Kind}
use scd.Topology
use scd.Apply.Plan.{Hashes, topology_plan}
use scd.State.{Issues}
use scd.Memory.{Tunnel, TunnelMonitor, idle_monitor, Source, Target}

-- a > b on strings.
abbrev pub after : String → String → Bool
after a b = elim (compare_str a b) [
  | Ordering.lt ↦ false
  | Ordering.eq ↦ false
  | Ordering.gt ↦ true
]

abbrev pub of_source : String → Tunnel → Bool
of_source id tn = tn.mapping.source_id == id

-- The tunnels of the other sources: the loop of replaceTunnels once the fresh ones are in.
unfoldable pub other_tunnels : String → List Tunnel → List Tunnel
other_tunnels id tns = select (λ tn. not (of_source id tn)) tns

-- The loop of replaceTunnels: the fresh tunnels stand before the first of a source after this one.
unfoldable pub place_tunnels : String → List Tunnel → List Tunnel → List Tunnel
unfolding other_tunnels
place_tunnels id fresh [] = fresh
place_tunnels id fresh (tn ∷ tns) =
    let rest = place_tunnels id fresh tns in
    if of_source id tn
    then rest
    else if after tn.mapping.source_id id
    then fresh ++ (tn ∷ other_tunnels id tns)
    else tn ∷ rest

unfoldable pub replace_tunnels : {F : Type 0} → String → List Tunnel → Target F → Target F
unfolding place_tunnels
replace_tunnels id fresh t = record t {
  generation = suc t.generation;
  tunnels = place_tunnels id fresh t.tunnels;
}

abbrev pub owned_by : String → Topology.Tunnel → Topology.Tunnel
owned_by id tn = record tn { source_id = id }

-- The state of a new apply, with what survives of the old one.
abbrev pub applied :
    {F : Type 0} → Option (Source F) → List (Kind × String) → List Topology.Tunnel → Source F
applied none hashes topo = record {
  hashes = hashes;
  topology = some topo;
  warnings = [];
  candidate_count = 0;
  config_hash = "";
  candidates = [];
  selection = record { quarantine = []; better = [] };
  no_replacement = [];
  no_live_since = none;
}
applied (some old) hashes topo = record {
  hashes = hashes;
  topology = some topo;
  warnings = [];
  candidate_count = 0;
  config_hash = "";
  candidates = [];
  selection = record { quarantine = old.selection.quarantine; better = [] };
  no_replacement = old.no_replacement;
  no_live_since = old.no_live_since;
}

-- old[id], of a map that is built by overwriting.
unfoldable pub named_tunnel : String → String → List Tunnel → Option Tunnel
named_tunnel id base tns =
    find_last (λ tn. of_source id tn && tn.mapping.base_tunnel_id == base) tns

-- The monitor of a fresh tunnel, by whether its source lost its Xray state, and the tunnel's old self.
abbrev pub kept_monitor : Bool → Option Tunnel → TunnelMonitor
kept_monitor true old = idle_monitor
kept_monitor false none = idle_monitor
kept_monitor false (some old) = record idle_monitor {
  failing_since = old.monitor.failing_since;
  flap = old.monitor.flap;
}

abbrev is_some {ℓ} : {A : Type ℓ} → Option A → Bool
is_some none = false
is_some (some a) = true

-- A fresh tunnel. Nothing is kept for a source that lost its Xray state.
unfoldable pub fresh_tunnel : Bool → String → List Tunnel → Topology.Tunnel → Tunnel
unfolding named_tunnel
fresh_tunnel lost id tns tn = record {
  mapping = tn;
  monitor = kept_monitor lost (named_tunnel id tn.base_tunnel_id tns);
}

-- ReplaceSourceTopology, of a target that there is.
unfoldable pub replace_source_topology :
    {F : Type 0} → String → List Topology.Tunnel → List (Kind × String) → Target F → Target F
unfolding fresh_tunnel replace_tunnels
replace_source_topology id topo hashes t =
    let tns = map (owned_by id) topo in
    let lost = is_some (lookup id t.issues.state_lost) in
    replace_tunnels id (map (fresh_tunnel lost id t.tunnels) tns) (record t {
      sync_seen = true;
      sources = insert id (applied (lookup id t.sources) hashes tns) t.sources;
    })

abbrev pub port_order : Topology.Tunnel → Topology.Tunnel → Ordering
port_order a b = compare_nat a.port b.port

abbrev pub next_of : String → Option Topology.Tunnel → List Topology.Tunnel
next_of id none = []
next_of id (some next) = owned_by id next ∷ []

-- The tunnels after the replacement, in slot order.
unfoldable pub slotted :
    String → String → Option Topology.Tunnel → List Topology.Tunnel → List Topology.Tunnel
slotted id old next tns =
    stable_sort port_order
      (select (λ tn. old == "" || not (tn.base_tunnel_id == old)) tns ++ next_of id next)

abbrev pub held : Option Tunnel → Topology.Tunnel → Tunnel
held (some old) tn = old
held none tn = record { mapping = tn; monitor = idle_monitor }

-- byID[id]: the new tunnel, or the one that the target has; every tunnel of the topology has one.
unfoldable pub by_id : String → Option Topology.Tunnel → List Tunnel → Topology.Tunnel → Tunnel
unfolding named_tunnel
by_id id next tns tn =
    held
      (if any (λ n. n.base_tunnel_id == tn.base_tunnel_id) (next_of id next)
        then none
        else named_tunnel id tn.base_tunnel_id tns)
      tn

module _ (hash : Hashes) where
  -- apply.TopologyPlan does not fail for the kinds that there are.
  abbrev rehashed : String → List Topology.Tunnel → Kind × String → Kind × String
  rehashed id tns (kind, old) = (kind, (topology_plan hash kind id tns).manifest_hash)

  unfoldable pub slot_source :
      {F : Type 0} → String → String → List Topology.Tunnel → Source F → Source F
  unfolding topology_plan
  slot_source id old tns src = record src {
    topology = some tns;
    hashes = map (rehashed id tns) src.hashes;
    no_replacement = remove_key old src.no_replacement;
  }

  abbrev pub slot_replaced :
      {F : Type 0}
      → String
      → String
      → Option Topology.Tunnel
      → Source F
      → List Topology.Tunnel
      → Target F
      → Target F
  slot_replaced id old next src topo t =
      let tns = slotted id old next topo in
      replace_tunnels id (map (by_id id next t.tunnels) tns)
        (record t { sources = insert id (slot_source id old tns src) t.sources })

  abbrev pub with_topology :
      {F : Type 0}
      → String
      → String
      → Option Topology.Tunnel
      → Source F
      → Option (List Topology.Tunnel)
      → Target F
      → Target F
  with_topology id old next src none t = t
  with_topology id old next src (some topo) t = slot_replaced id old next src topo t

  abbrev pub with_source :
      {F : Type 0}
      → String
      → String
      → Option Topology.Tunnel
      → Option (Source F)
      → Target F
      → Target F
  with_source id old next none t = t
  with_source id old next (some src) t = with_topology id old next src src.topology t

  -- ReplaceSourceTunnel
  unfoldable pub replace_source_tunnel :
      {F : Type 0} → String → String → Option Topology.Tunnel → Target F → Target F
  unfolding slotted by_id slot_source replace_tunnels
  replace_source_tunnel id old next t = with_source id old next (lookup id t.sources) t

abbrev pub emptied : {F : Type 0} → String → Option (Source F) → Target F → Target F
emptied id none t = t
emptied id (some src) t =
    replace_tunnels id []
      (record t { sources = insert id (record src { topology = some []; hashes = [] }) t.sources })

-- DropSourceTunnels
unfoldable pub drop_source_tunnels : {F : Type 0} → String → Target F → Target F
unfolding replace_tunnels
drop_source_tunnels id t = emptied id (lookup id t.sources) t

abbrev pub unhashed : {F : Type 0} → String → Option (Source F) → Target F → Target F
unhashed id none t = t
unhashed id (some src) t = record t { sources = insert id (record src { hashes = [] }) t.sources }

-- ResetSourceHashes
unfoldable pub reset_source_hashes : {F : Type 0} → String → Target F → Target F
reset_source_hashes id t = unhashed id (lookup id t.sources) t

-- The mark of a lost source goes with it.
abbrev forget_loss : String → Issues → Issues
forget_loss id i =
    let lost = remove_key id i.state_lost in
    record i {
      state_lost = lost;
      state_lost_logged = if is_empty lost then false else i.state_lost_logged;
    }

abbrev pub forgotten : {F : Type 0} → String → Option (Source F) → Target F → Target F
forgotten id none t = t
forgotten id (some src) t =
    replace_tunnels id []
      (record t { sources = remove_key id t.sources; issues = forget_loss id t.issues })

-- DropSource, of a target that there is.
unfoldable pub drop_source : {F : Type 0} → String → Target F → Target F
unfolding replace_tunnels
drop_source id t = forgotten id (lookup id t.sources) (record t {
  waits = remove_key id t.waits;
  check_failed = remove_key id t.check_failed;
  source_errors = remove_key id t.source_errors;
})
