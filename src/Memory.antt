-- ===== src/Memory.antt =====
-- internal/scd/state/state.go and wait.go: the state of a target, its sources and its tunnels, and the
-- operations that change them. A time is a number of nanoseconds. Each operation runs under the lock of
-- the state.
pub mod Balancers
pub mod Tunnels
pub mod Store
pub mod Placed
pub mod InOrder
pub mod Consistent
pub mod Fresh
pub mod Changes
pub mod Others
use scd.Prelude.{
  ℕ, suc, ◌+◌, ◌<◌, Ordering, String, Bool, true, false, not, ◌&&◌, ◌||◌, Option, none, some, List,
  [], ◌∷◌, ◌++◌, ◌==◌, string_eq, map, if◌then◌else◌, lookup, insert, remove_key, keys, is_empty,
  compare_str, contains, length,
}
use scd.Sort.{compare_nat, stable_sort}
use scd.Xray.{Kind}
use scd.Manifest.{Entry}
use scd.Topology
use scd.Selection.Quarantine.{State}
use scd.State.{Issues, XrayIssue}
use scd.Waits.{SourceWait, DepHealth}
use scd.Memory.Balancers.{Balancer, no_selection}

pub data TunnelState : Type 0 where
  idle healthy degraded repairing : TunnelState

-- Since is none outside an episode.
pub record Flap : Type 0 where
  pub times : List ℕ
  pub since : Option ℕ
  pub count : ℕ
  pub last_fail_at : Option ℕ

pub record TunnelMonitor : Type 0 where
  pub state : TunnelState
  pub last_checked_at : Option ℕ
  pub last_success_at : Option ℕ
  pub last_failure_at : Option ℕ
  pub last_status_code : Option ℕ
  pub last_latency_ms : Option ℕ
  pub last_success_status_code : Option ℕ
  pub last_success_latency_ms : Option ℕ
  pub last_error : String
  pub consecutive_failures : ℕ
  pub failures_in_row : ℕ
  pub failing_since : Option ℕ
  pub last_repair_error : String
  pub last_rejoin_error : String
  pub flap : Flap

abbrev pub no_flap : Flap
no_flap = record { times = []; since = none; count = 0; last_fail_at = none }

-- TunnelMonitor{State: TunnelIdle}
abbrev pub idle_monitor : TunnelMonitor
idle_monitor = record {
  state = idle;
  last_checked_at = none;
  last_success_at = none;
  last_failure_at = none;
  last_status_code = none;
  last_latency_ms = none;
  last_success_status_code = none;
  last_success_latency_ms = none;
  last_error = "";
  consecutive_failures = 0;
  failures_in_row = 0;
  failing_since = none;
  last_repair_error = "";
  last_rejoin_error = "";
  flap = no_flap;
}

-- state.Tunnel. Each tunnel of a target is held once, so a pointer to it is its value.
pub record Tunnel : Type 0 where
  pub mapping : Topology.Tunnel
  pub monitor : TunnelMonitor

pub record Source (F : Type 0) : Type 0 where
  pub hashes : List (Kind × String)
  pub topology : Option (List Topology.Tunnel)
  pub warnings : List String
  pub candidate_count : ℕ
  pub config_hash : String
  pub candidates : List (Entry F)
  pub selection : State
  pub no_replacement : List (String × Bool)
  pub no_live_since : Option ℕ

pub record SourceError : Type 0 where
  pub code : String
  pub message : String
  pub at_time : ℕ

-- XrayDown and StateLost are in the issues.
pub record Target (F : Type 0) : Type 0 where
  pub sync_seen : Bool
  pub sources : List (String × Source F)
  pub generation : ℕ
  pub tunnels : List Tunnel
  pub balancers : List (String × Balancer)
  pub observatory_error : String
  pub waits : List (String × SourceWait)
  pub source_errors : List (String × SourceError)
  pub check_failed : List (String × String)
  pub issues : Issues

abbrev pub no_issues : Issues
no_issues = record {
  xray_down = none;
  state_lost = [];
  state_lost_since = 0;
  state_lost_logged = false;
}

unfoldable pub new_target : {F : Type 0} → Target F
new_target = record {
  sync_seen = false;
  sources = [];
  generation = 0;
  tunnels = [];
  balancers = [];
  observatory_error = "";
  waits = [];
  source_errors = [];
  check_failed = [];
  issues = no_issues;
}

-- AllWarnings, with the number of the tunnels in the message.
unfoldable pub all_warnings : {F : Type 0} → Source F → List String × Option ℕ
all_warnings s =
    (s.warnings, if is_empty s.no_replacement then none else some (length s.no_replacement))

-- SourceIDs
unfoldable pub source_ids : {F : Type 0} → Target F → List String
source_ids t = stable_sort compare_str (keys t.sources)

-- SetSourceError
abbrev start_of : Option SourceError → ℕ → ℕ
start_of none now = now
start_of (some e) now = e.at_time

unfoldable pub set_source_error : {F : Type 0} → String → String → String → ℕ → Target F → Target F
set_source_error id code msg now t = record t {
  source_errors =
      insert id
        (record { code = code; message = msg; at_time = start_of (lookup id t.source_errors) now })
        t.source_errors;
}

-- EnsureWait: the wait and the target that holds it.
abbrev new_wait : SourceWait
new_wait = record { since = none; reset_at = none; deps = [] }

abbrev ensured : {F : Type 0} → String → Target F → Option SourceWait → SourceWait × Target F
ensured id t (some w) = (w, t)
ensured id t none = (new_wait, record t { waits = insert id new_wait t.waits })

unfoldable pub ensure_wait : {F : Type 0} → String → Target F → SourceWait × Target F
ensure_wait id t = ensured id t (lookup id t.waits)

-- EnsureBalancer and BalancerState
abbrev new_balancer : Balancer
new_balancer = record { selection = no_selection }

abbrev balancer_ensured : {F : Type 0} → String → Target F → Option Balancer → Balancer × Target F
balancer_ensured tag t (some b) = (b, t)
balancer_ensured tag t none =
    (new_balancer, record t { balancers = insert tag new_balancer t.balancers })

unfoldable pub ensure_balancer : {F : Type 0} → String → Target F → Balancer × Target F
ensure_balancer tag t = balancer_ensured tag t (lookup tag t.balancers)

unfoldable pub balancer_state : {F : Type 0} → String → Target F → Option Balancer
balancer_state tag t = lookup tag t.balancers

-- SourceWaiting
abbrev failed_code : Option String → Bool
failed_code none = false
failed_code (some code) = not (code == "")

abbrev in_wait : Option XrayIssue → Option SourceWait → Bool
in_wait down none = false
in_wait none (some w) = elim w.since [ none ↦ false | some since ↦ true ]
in_wait (some issue) (some w) = true

unfoldable pub source_waiting : {F : Type 0} → Target F → String → Bool
source_waiting t id =
    failed_code (lookup id t.check_failed) || in_wait t.issues.xray_down (lookup id t.waits)
