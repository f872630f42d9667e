-- ===== src/Memory/Balancers.antt =====
-- internal/scd/state/state.go: the selection of a balancer as the balancer tick records it, and its
-- health for a dependency (wait.go).
use scd.Prelude.{
  ℕ, String, Bool, false, not, ◌||◌, Option, none, some, List, [], ◌==◌, string_eq, is_empty,
  if◌then◌else◌,
}
use scd.Waits.{Health, dep_healthy, dep_unhealthy, dep_unknown}

-- SelectionState.State; `unpolled` is "".
pub data Polled : Type 0 where
  unpolled polled_ok polled_error : Polled

-- Mode; `no_mode` is "", before the first answer.
pub data Mode : Type 0 where
  no_mode mode_override mode_single mode_pool mode_none mode_unknown : Mode

-- xrayapi.OutboundObservation, as far as it is read.
pub record Observation : Type 0 where
  pub tag : String
  pub alive : Bool
  pub delay : ℕ

pub record Selection : Type 0 where
  pub state : Polled
  pub balancer_tag : String
  pub mode : Mode
  pub selected_tag : String
  pub override_target : String
  pub principle_targets : List String
  pub selected_since : Option ℕ
  pub previous_selected_tag : String
  pub last_checked_at : Option ℕ
  pub last_success_at : Option ℕ
  pub last_failure_at : Option ℕ
  pub last_error : String
  pub consecutive_failures : ℕ
  pub not_found : Bool
  pub observatory : Option (List (String × Observation))
  pub observatory_error : String
  pub observatory_checked_at : Option ℕ
  pub foreign : List String

abbrev pub no_selection : Selection
no_selection = record {
  state = unpolled;
  balancer_tag = "";
  mode = no_mode;
  selected_tag = "";
  override_target = "";
  principle_targets = [];
  selected_since = none;
  previous_selected_tag = "";
  last_checked_at = none;
  last_success_at = none;
  last_failure_at = none;
  last_error = "";
  consecutive_failures = 0;
  not_found = false;
  observatory = none;
  observatory_error = "";
  observatory_checked_at = none;
  foreign = [];
}

-- The monitor of a balancer is not modelled.
pub record Balancer : Type 0 where
  pub selection : Selection

abbrev polled_health : (ℕ → Bool) → Selection → Polled → Option ℕ → Health
polled_health stale s polled_ok (some last) =
    if stale last
    then dep_unknown
    else if not (s.override_target == "") || not (is_empty s.principle_targets)
    then dep_healthy
    else dep_unhealthy
polled_health stale s _ _ = dep_unknown

-- SelectionHealth of a balancer that there is, by whether the Xray API is down.
unfoldable pub selection_health : (ℕ → Bool) → Bool → Option Balancer → Health
selection_health stale down none = dep_unknown
selection_health stale down (some b) =
    if down
    then dep_unknown
    else polled_health stale b.selection b.selection.state b.selection.last_success_at
