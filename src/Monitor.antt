-- ===== src/Monitor.antt =====
-- internal/scd/monitor/repair.go and tunnels.go: the monitor of the tunnels. Here are the rules of flaps
-- and of a failure series, Monitor/Calls has the calls to Xray, Monitor/Repair the repair and the rejoin
-- of a tunnel, Monitor/Check the check of one. A time is a number of nanoseconds.
pub mod Calls
pub mod Repair
pub mod Rejoin
pub mod Single
pub mod Tags
pub mod Kept
pub mod Probe
pub mod Check
pub mod Retried
pub mod Series
pub mod Runs
pub mod Plain
pub mod Accepted
pub mod Recovery
use scd.Prelude.{
  ℕ, suc, ◌-◌, ◌*◌, String, Bool, true, false, not, ◌&&◌, ◌||◌, Option, none, some, List, [], ◌∷◌,
  ◌++◌, ◌==◌, string_eq, nat_eq, if◌then◌else◌, ltb, length, select, find_first,
}
use scd.Topology
use scd.State.{no_line}
use scd.State
use scd.Memory.{Tunnel, TunnelMonitor, Flap, no_flap, Target}

abbrev pub flap_limit : ℕ
flap_limit = 3

abbrev pub flap_window : ℕ
flap_window = 60 * 60_000_000_000

abbrev pub stable_after : ℕ
stable_after = 60 * 60_000_000_000

abbrev pub down_after : ℕ
down_after = 3

pub data Level : Type 0 where
  debug info warn error : Level

-- A log line of the monitor: its event, its level and the numbers that the state decides.
pub data Line : Type 0 where
  of_xray : State.Line → Line
  tunnel_repair_skipped : Line
  xray_state_lost tunnel_repair_failed tunnel_rejoin_failed : Level → Line
  tunnel_repaired : Level → ℕ → Line
  tunnel_flapping : ℕ → Line
  tunnel_rejoined_balancer tunnel_recovered : Level → Option ℕ → Line
  tunnel_down : Level → ℕ → ℕ → Line
  tunnel_stable source_recovered : ℕ → Line

-- What NoteXray logs.
abbrev pub xray_lines : State.Line → List Line
xray_lines no_line = []
xray_lines l = of_xray l ∷ []

abbrev pub is_some {ℓ} : {A : Type ℓ} → Option A → Bool
is_some none = false
is_some (some a) = true

unfoldable pub should_rejoin : Topology.Tunnel → Bool
should_rejoin m =
    not (m.outbound_tag_current == m.outbound_tag_initial)
    && not (m.outbound_tag_initial == m.outbound_without_prefix.tag)

-- !m.FailingSince.Before(*resetAt), where either may be nil.
abbrev not_before : Option ℕ → Option ℕ → Bool
not_before since none = true
not_before none (some reset) = true
not_before (some since) (some reset) = not (ltb since reset)

unfoldable pub fresh_series : TunnelMonitor → Bool → Option ℕ → Bool
fresh_series m waiting reset_at = not waiting && not_before m.failing_since reset_at

-- f.Times[0]
abbrev first_of : List ℕ → ℕ → ℕ
first_of [] now = now
first_of (x ∷ xs) now = x

unfoldable pub start_flap : List ℕ → ℕ → Flap → Flap × Bool
start_flap times now f =
    if ltb (length times) flap_limit
    then (record f { times = times }, false)
    else (record f { since = some (first_of times now); count = length times; times = [] }, true)

unfoldable pub add_outside : Option ℕ → ℕ → Flap → Flap × Bool
unfolding start_flap
add_outside (some since) now f = (record f { count = suc f.count }, false)
add_outside none now f =
    start_flap (select (λ at_time. ltb (now - at_time) flap_window) f.times ++ now ∷ []) now f

-- addFlap: the flaps and whether an episode starts.
unfoldable pub add_flap : Flap → ℕ → Flap × Bool
unfolding add_outside
add_flap f now = add_outside f.since now f

unfoldable pub flap_level : TunnelMonitor → Level → Level
flap_level m level = if is_some m.flap.since then debug else level

-- updateTunnel, on the tunnels of the target.
unfoldable pub update_first : String → (Tunnel → Tunnel) → List Tunnel → List Tunnel
update_first id f [] = []
update_first id f (tn ∷ tns) =
    let rest = update_first id f tns in
    if tn.mapping.base_tunnel_id == id then f tn ∷ tns else tn ∷ rest

unfoldable pub update_tunnel : {F : Type 0} → String → (Tunnel → Tunnel) → Target F → Target F
unfolding update_first
update_tunnel id f t = record t { tunnels = update_first id f t.tunnels }

-- viewTunnel
unfoldable pub view_tunnel : {F : Type 0} → String → Target F → Option Tunnel
view_tunnel id t = find_first (λ tn. tn.mapping.base_tunnel_id == id) t.tunnels

-- noteRejoinError: the monitor, and whether the error repeats.
unfoldable pub note_rejoin_error : TunnelMonitor → String → TunnelMonitor × Bool
note_rejoin_error m msg = (record m { last_rejoin_error = msg }, m.last_rejoin_error == msg)
