-- ===== src/Config/Issues.antt =====
-- internal/common/schema/schema.go: the issues that the rules of the config report, each at a key of
-- the root or of a subscription. A message is a constructor with the values that it is formatted with.
pub mod Reports
use scd.Prelude.{ℕ, String, Bool, List, [], ◌∷◌, if◌then◌else◌}

pub data Message : Type 0 where
  invalid_source_id ends_before_start no_subscription_enabled : Message
  required_for_sockets required_when_enabled required_for_daemon : Message
  requires_outbounds requires_outbounds_and_inbounds : Message
  requires_every_kind requires_monitor : Message
  not_an_address not_fixed own_balancer depends_on_itself own_subscription : Message
  duplicate_id duplicate_tag duplicate_address duplicate_dependency unknown_source :
      String → Message
  overlapping_ids in_namespace overlaps_prefix : String → String → Message
  overlapping_range disabled_source no_balancer unknown_subscription not_unique : String → Message
  disabled_subscription unsupported_type : String → Message
  too_few_ports : ℕ → ℕ → Message
  owned_balancer shared_balancer not_a_balancer not_selected : String → String → Message
  cycle cross_cycle : List String → Message
  bad_schedule : String → Message
  -- Warnings.
  no_sources no_prefix masque_vision : Message
  always_healthy : String → String → Message

-- A path below the node: sources.<j>.<name>, sources.<j>.dependsOn.<k>.<name>,
-- target.balancers.<k>.<name>, or any other key.
pub data Key : Type 0 where
  key : String → Key
  source_key : ℕ → String → Key
  dependency_key : ℕ → ℕ → String → Key
  balancer_key : ℕ → String → Key

pub data Place : Type 0 where
  root : Place
  subscription : ℕ → Place

pub record Issue : Type 0 where
  pub place : Place
  pub at_key : Key
  pub message : Message

-- n.Addf
abbrev pub issue : Place → Key → Message → Issue
issue n k m = record { place = n; at_key = k; message = m }

-- A report under a condition.
abbrev pub when : Bool → Issue → List Issue
when b i = if b then i ∷ [] else []
