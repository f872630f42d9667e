-- ===== src/Memory/Store.antt =====
-- internal/scd/state/state.go: the targets by their keys, and the guard of the running sync.
use scd.Prelude.{
  String, Bool, true, false, Option, none, some, List, [], string_eq, lookup, insert, keys, append,
  compare_str, if◌then◌else◌,
}
use scd.Sort.{stable_sort}
use scd.Xray.{Kind}
use scd.Topology
use scd.Memory.{Target, new_target}
use scd.Memory.Tunnels.{replace_source_topology, drop_source}

pub record Memory (F : Type 0) : Type 0 where
  pub targets : List (String × Target F)
  pub syncing : Bool

unfoldable pub new_memory : {F : Type 0} → Memory F
new_memory = record { targets = []; syncing = false }

-- Key
unfoldable pub target_key : String → String → String
target_key subscription_id address = append subscription_id (append "::" address)

abbrev pub is_some {ℓ} : {A : Type ℓ} → Option A → Bool
is_some none = false
is_some (some a) = true

abbrev put : {F : Type 0} → String → Memory F → Target F → Memory F
put key m t = record m { targets = insert key t m.targets }

abbrev or_new : {F : Type 0} → Option (Target F) → Target F
or_new none = new_target
or_new (some t) = t

abbrev changed :
    {F : Type 0} → String → (Target F → Target F) → Memory F → Option (Target F) → Memory F × Bool
changed key f m none = (m, false)
changed key f m (some t) = (put key m (f t), true)

-- Update
unfoldable pub update : {F : Type 0} → String → (Target F → Target F) → Memory F → Memory F × Bool
update key f m = changed key f m (lookup key m.targets)

-- Ensure
unfoldable pub ensure : {F : Type 0} → String → Memory F → Memory F
unfolding new_target
ensure key m = if is_some (lookup key m.targets) then m else put key m new_target

-- MarkSynced
unfoldable pub mark_synced : {F : Type 0} → String → Memory F → Memory F
unfolding new_target
mark_synced key m = put key m (record (or_new (lookup key m.targets)) { sync_seen = true })

-- ReplaceSourceTopology and DropSource, with the target of the key.
unfoldable pub replace_topology :
    {F : Type 0}
    → String
    → String
    → List Topology.Tunnel
    → List (Kind × String)
    → Memory F
    → Memory F
unfolding replace_source_topology new_target
replace_topology key id topo hashes m =
    put key m (replace_source_topology id topo hashes (or_new (lookup key m.targets)))

unfoldable pub forget_source : {F : Type 0} → String → String → Memory F → Memory F
unfolding drop_source update
forget_source key id m = (update key (drop_source id) m).0

-- Keys
unfoldable pub target_keys : {F : Type 0} → Memory F → List String
target_keys m = stable_sort compare_str (keys m.targets)

-- TryStartSync and EndSync
unfoldable pub try_start_sync : {F : Type 0} → Memory F → Memory F × Bool
try_start_sync m = if m.syncing then (m, false) else (record m { syncing = true }, true)

unfoldable pub end_sync : {F : Type 0} → Memory F → Memory F
end_sync m = record m { syncing = false }
