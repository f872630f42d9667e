-- ===== src/Config.antt =====
-- internal/scd/config/types.go: the parts of the config that the other modules read. The rules of
-- internal/scd/config/rules.go are in the children.
pub mod Cycles
pub mod Issues
pub mod Sources
pub mod Dependencies
pub mod Cross
pub mod Rules
use scd.Prelude.{
  ℕ, String, Bool, not, ◌||◌, Option, none, some, List, [], ◌∷◌, ◌==◌, string_eq, append,
  if◌then◌else◌, find_first,
}
use scd.Selection.{SourceFilters, Strategy}

pub record PortRange : Type 0 where
  pub start : ℕ
  pub last : ℕ

-- SelectionConfig; the field for each use is read where it is used.
pub record SourceSelection : Type 0 where
  pub strategy : Strategy
  pub switch_margin_percent : ℕ
  pub switch_confirm_checks : ℕ
  pub dead_pair_cooldown_minutes : ℕ
  pub replace_after_failures : ℕ

-- DependencyConfig. Its health is judged by the balancer, or "" for the sources themselves.
pub record Dependency : Type 0 where
  pub source : String
  pub subscription : String
  pub balancer : String
  pub health : String

pub record Source : Type 0 where
  pub id : String
  pub type_name : String
  pub enabled : Bool
  pub port_range : Option PortRange
  pub filters : Option SourceFilters
  pub max_active : ℕ
  pub selection : Option SourceSelection
  pub balancer : String
  pub dialer_proxy : String
  pub depends_on : List Dependency

-- Whether socks5 and request are configured, and remotePing.enabled.
pub record BalancerMonitor : Type 0 where
  pub enabled : Bool
  pub schedule : String
  pub has_socks5 : Bool
  pub has_request : Bool
  pub remote_ping : Bool

pub record BalancerSelection : Type 0 where
  pub enabled : Bool
  pub schedule : String
  pub strategy : String

pub record Balancer : Type 0 where
  pub tag : String
  pub monitor : Option BalancerMonitor
  pub selection : Option BalancerSelection

pub record Monitor : Type 0 where
  pub enabled : Bool
  pub schedule : String
  pub has_request : Bool

-- InboundSocks is its listen address.
pub record Target : Type 0 where
  pub address : String
  pub fixed_outbounds : List String
  pub fixed_inbounds : List String
  pub fixed_routing : List String
  pub vision_udp443_override : Bool
  pub inbound_socks : Option String
  pub monitor : Monitor
  pub balancers : List Balancer
  pub observatory_prefix : String

pub record Subscription : Type 0 where
  pub id : String
  pub enabled : Bool
  pub sources : List Source
  pub target : Target

-- ResourceConfig: which kinds are enabled.
pub record Resources : Type 0 where
  pub outbounds : Bool
  pub inbounds : Bool
  pub routing : Bool

unfoldable pub candidate_type : String → Bool
candidate_type t = t == "wireguard" || t == "masque"

-- DependencyConfig.Name
unfoldable pub dependency_name : Dependency → String
dependency_name d =
    if not (d.subscription == "")
    then append "balancer:" (append d.subscription (append "/" d.balancer))
    else if not (d.balancer == "")
    then append "balancer:" d.balancer
    else d.source

-- FindBalancer, without the subscription that it returns too.
unfoldable pub find_balancer : List Subscription → String → String → Option Balancer
find_balancer subs sub_id tag = elim (find_first (λ s. s.id == sub_id) subs) [
  | none ↦ none
  | some s ↦ find_first (λ b. b.tag == tag) s.target.balancers
]
