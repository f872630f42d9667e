-- ===== src/Monitor/Repair.antt =====
-- internal/scd/monitor/repair.go: the repair of one tunnel, under the lock of its target.
-- Connecting fails with the given error, if any. The clock is read for NoteXray after hasInbound (noted)
-- and for the end of the operation (ended).
use scd.Prelude.{
  ℕ, String, Bool, true, false, not, ◌&&◌, ◌||◌, Option, none, some, List, [], ◌∷◌, ◌++◌, ◌==◌,
  string_eq, nat_eq, if◌then◌else◌, lookup, map,
}
use scd.Xray.{Server, World, Error, Result, ok, err}
use scd.Topology
use scd.Outbound.{Builder}
use scd.Apply.Slots.{Resources}
use scd.State.{Call, answered, unavailable, other_error, note_xray, set_state_lost}
use scd.Waits.{SourceWait}
use scd.Memory.{Tunnel, TunnelMonitor, repairing, degraded, Source, Target, source_waiting}
use scd.Memory.Tunnels.{reset_source_hashes}
use scd.Monitor.{
  debug, warn, error, Line, tunnel_repair_skipped, xray_state_lost, tunnel_repair_failed,
  tunnel_repaired, tunnel_flapping, xray_lines, is_some, should_rejoin, fresh_series, add_flap,
  update_tunnel, view_tunnel,
}
use scd.Monitor.Calls.{has_inbound, repair_calls}

abbrev pub repaired_message : String
repaired_message = "Tunnel repaired; awaiting next successful monitor check."

abbrev pub state_lost_message : String
state_lost_message = "Xray has no inbound of the tunnel; the next sync applies the source again."

-- What NoteXray hears of an error.
abbrev pub call_of : Error → Call
call_of e = if e.unavailable then unavailable e.message else other_error

-- The target, Xray and the lines that an operation leaves.
pub record Run (F S : Type 0) : Type 0 where
  pub target : Target F
  pub world : World S
  pub lines : List Line

-- NoteXray, on the target.
unfoldable pub noted_xray : {F : Type 0} → Call → ℕ → Target F → Target F × List Line
unfolding note_xray
noted_xray c now t =
    let (i, l) = note_xray t.issues c now in (record t { issues = i }, xray_lines l)

-- capRefused
unfoldable pub cap_refused : {F : Type 0} → Topology.Tunnel → Error → Target F → Target F
unfolding reset_source_hashes
cap_refused tn e t = if e.is_cap_reached then reset_source_hashes tn.source_id t else t

abbrev pub no_live : {F : Type 0} → Option (Source F) → Bool
no_live none = false
no_live (some src) = is_some src.no_live_since

abbrev pub reset_of : Option SourceWait → Option ℕ
reset_of none = none
reset_of (some w) = w.reset_at

abbrev pub on_unprefixed : Topology.Tunnel → Topology.Tunnel
on_unprefixed tn = record tn { outbound_tag_current = tn.outbound_without_prefix.tag }

abbrev pub on_initial : Topology.Tunnel → Topology.Tunnel
on_initial tn = record tn { outbound_tag_current = tn.outbound_tag_initial }

abbrev pub begun : Tunnel → Tunnel
begun tn = record tn { monitor = record tn.monitor { state = repairing } }

abbrev pub lost_tunnel : Tunnel → Tunnel
lost_tunnel tn = record tn {
  monitor = record tn.monitor { state = degraded; last_error = state_lost_message };
}

abbrev pub lose : String → Tunnel → Tunnel
lose id tn = if tn.mapping.base_tunnel_id == id then lost_tunnel tn else tn

-- stateLost
unfoldable pub state_lost : {F : Type 0} → Topology.Tunnel → ℕ → Target F → Target F × List Line
unfolding reset_source_hashes set_state_lost
state_lost tn now t =
    let t' = reset_source_hashes tn.source_id t in
    let (i, first) = set_state_lost t'.issues tn.source_id now in
    (
      record t' { issues = i; tunnels = map (lose tn.base_tunnel_id) t'.tunnels },
      xray_state_lost (if first then warn else debug) ∷ [],
    )

-- The tunnel after a failed repair.
abbrev pub failed_tunnel : Bool → String → ℕ → Tunnel → Tunnel
failed_tunnel added msg now tn = record tn {
  mapping = if added then on_unprefixed tn.mapping else tn.mapping;
  monitor = record tn.monitor {
    state = degraded;
    last_failure_at = some now;
    last_error = msg;
    last_repair_error = msg;
  };
}

unfoldable pub repair_failed :
    {F : Type 0} → Tunnel → Bool → Bool → Error → ℕ → Target F → Target F × List Line
unfolding cap_refused noted_xray update_tunnel
repair_failed cur waiting added e now t =
    let (t', lines) = noted_xray (call_of e) now (cap_refused cur.mapping e t) in
    let quiet = e.unavailable || waiting || cur.monitor.last_repair_error == e.message in
    (
      update_tunnel cur.mapping.base_tunnel_id (failed_tunnel added e.message now) t',
      lines ++ tunnel_repair_failed (if quiet then debug else error) ∷ [],
    )

-- The monitor after a repair, and whether a flap episode starts.
unfoldable pub repaired_monitor : Bool → Option ℕ → ℕ → TunnelMonitor → TunnelMonitor × Bool
unfolding fresh_series add_flap
repaired_monitor waiting reset_at now m =
    let (f, started) =
      if m.failures_in_row == 1 && fresh_series m waiting reset_at
      then add_flap m.flap now
      else (m.flap, false) in
    (
      record m {
        flap = f;
        state = degraded;
        last_status_code = none;
        last_latency_ms = none;
        consecutive_failures = 0;
        last_error = repaired_message;
        last_repair_error = "";
      },
      started,
    )

abbrev pub repaired_tunnel : Bool → Option ℕ → ℕ → Tunnel → Tunnel
repaired_tunnel waiting reset_at now tn = record tn {
  mapping = on_unprefixed tn.mapping;
  monitor = (repaired_monitor waiting reset_at now tn.monitor).0;
}

unfoldable pub repair_done :
    {F : Type 0} → Tunnel → Bool → Bool → Option ℕ → ℕ → Target F → Target F × List Line
unfolding repaired_monitor update_tunnel fresh_series
repair_done cur quiet waiting reset_at now t =
    let (m, flapping) = repaired_monitor waiting reset_at now cur.monitor in
    let low =
      quiet
      || not (fresh_series cur.monitor waiting reset_at)
      || not (cur.monitor.consecutive_failures == cur.monitor.failures_in_row)
      || is_some m.flap.since in
    (
      update_tunnel cur.mapping.base_tunnel_id (repaired_tunnel waiting reset_at now) t,
      tunnel_repaired (if low then debug else warn) cur.monitor.failures_in_row
          ∷ (if flapping then tunnel_flapping m.flap.count ∷ [] else []),
    )

module _ {F S : Type 0} (srv : Server S) (res : Resources) (b : Builder) where
  -- A change of the target after the calls, with what was logged before.
  abbrev pub ends : List Line → World S → Target F × List Line → Run F S
  ends lines w (t, more) = record { target = t; world = w; lines = lines ++ more }

  -- What follows the calls of a repair; what the source waits for was read before them.
  abbrev pub after_calls :
      Tunnel → ℕ → List Line → Target F → Target F → Bool × (Option Error × World S) → Run F S
  after_calls cur now lines seen t (added, (some e, w)) =
      let waiting = source_waiting seen cur.mapping.source_id in
      ends lines w (repair_failed cur waiting added e now t)
  after_calls cur now lines seen t (added, (none, w)) =
      let id = cur.mapping.source_id in
      let waiting = source_waiting seen id in
      ends lines w (
        repair_done cur (waiting || no_live (lookup id seen.sources)) waiting
          (reset_of (lookup id seen.waits)) now t)

  abbrev pub repair_present : Tunnel → ℕ → ℕ → Target F → Result Bool × World S → Run F S
  repair_present cur noted ended t (err e, w) = after_calls cur ended [] t t (false, (some e, w))
  repair_present cur noted ended t (ok false, w) =
      let (t', lines) = noted_xray answered noted t in
      ends lines w (state_lost cur.mapping ended t')
  repair_present cur noted ended t (ok true, w) =
      let (t', lines) = noted_xray answered noted t in
      after_calls cur ended lines t t'
        (repair_calls srv res b cur.mapping (on_unprefixed cur.mapping) w)

  abbrev pub repair_dialled :
      Tunnel → Option Error → ℕ → ℕ → Target F → World S → Option Error × Run F S
  repair_dialled cur (some e) noted ended t w =
      (some e, record { target = t; world = w; lines = [] })
  repair_dialled cur none noted ended t w =
      (none, repair_present cur noted ended t (has_inbound srv cur.mapping.inbound_tag w))

  abbrev pub repair_found :
      Option Tunnel → Option Error → ℕ → ℕ → Target F → World S → Option Error × Run F S
  repair_found none dial noted ended t w = (none, record { target = t; world = w; lines = [] })
  repair_found (some cur) dial noted ended t w =
      if should_rejoin cur.mapping
      then (none, record { target = t; world = w; lines = tunnel_repair_skipped ∷ [] })
      else repair_dialled cur dial noted ended (update_tunnel cur.mapping.base_tunnel_id begun t) w

  -- Repair: the error of connecting, and what it leaves.
  unfoldable pub repair :
      String → Option Error → ℕ → ℕ → Target F → World S → Option Error × Run F S
  unfolding should_rejoin update_tunnel view_tunnel has_inbound repair_calls repair_failed
      repair_done noted_xray state_lost
  repair id dial noted ended t w = repair_found (view_tunnel id t) dial noted ended t w
