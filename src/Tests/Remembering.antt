-- ===== src/Tests/Remembering.antt =====
-- The state of a target and the polls of a balancer (internal/scd/state, balancer) at concrete inputs.
use scd.Prelude.{
  ℕ, ◌≡◌, refl, true, false, string_eq, some, List, [], ◌∷◌, map, ==_false→ne, lookup, insert,
  select, any,
}
use scd.Xray.{outbound}
use scd.Memory.{Target, new_target}
use scd.Sort.{stable_sort}
use scd.Topology.{new_tunnel}
use scd.Memory.Tunnels.{replace_source_tunnel, replace_source_topology}
use scd.Memory.Consistent.{Consistent}
use scd.Memory.Changes.{Change, new_topology, new_slot, forget, run, change, run-Consistent}
use scd.Memory.Others.{Same, change-Same}
use scd.Balancer.{Info}
use scd.Balancer.Tick.{answered, failed, Failure}
use scd.Balancer.History.{Poll, recorded, Matches, recorded-Matches}
use scd.Tests.Planning.{tunnel, hashes}

abbrev changes : List Change
changes =
    new_topology "fr" (record tunnel { base_tunnel_id = "fr-1" } ∷ []) []
    ∷ new_topology "de" (tunnel ∷ []) ((outbound, "h") ∷ [])
    ∷ new_slot "de" tunnel.base_tunnel_id (some (record tunnel { base_tunnel_id = "de-2" }))
    ∷ []

abbrev remembered : Target ℕ
remembered = run hashes changes new_target

tunnels_in_order : map (λ tn. tn.mapping.base_tunnel_id) remembered.tunnels ≡ "de-2" ∷ "fr-1" ∷ []
unfolding new_target replace_source_tunnel lookup replace_source_topology insert stable_sort select
    new_tunnel any
tunnels_in_order = refl

run-Consistent_example : Consistent {F = ℕ} (run hashes changes new_target)
run-Consistent_example = run-Consistent hashes changes

change-Same_example : Same "fr" remembered (change hashes (forget "de") remembered)
change-Same_example =
    change-Same hashes "fr" (forget "de") remembered (==_false→ne "de" "fr" refl)
      run-Consistent_example

abbrev info : Info
info = record { override_target = ""; principle_targets = "obs-de-1" ∷ []; principle_known = true }

abbrev down : Failure
down = record { message = "unavailable"; not_found = false; unavailable = true }

abbrev polls : List Poll
polls = (30, failed down) ∷ (20, answered info) ∷ (10, answered info) ∷ []

since_first : (recorded "b" polls).selected_since ≡ some 10
unfolding recorded
since_first = refl

recorded-Matches_example : Matches polls (recorded "b" polls)
recorded-Matches_example = recorded-Matches "b" polls
