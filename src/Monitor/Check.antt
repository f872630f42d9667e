-- ===== src/Monitor/Check.antt =====
-- internal/scd/monitor/tunnels.go: what checkTunnel records of a check, and what it does after one that
-- passed. The replacement of a tunnel after a failed one is not modelled. A duration in a line is a number of
-- nanoseconds.
use scd.Prelude.{
  ℕ, suc, ◌-◌, String, Bool, true, false, ◌&&◌, Option, none, some, List, [], ◌∷◌, ◌++◌, ◌==◌,
  string_eq, nat_eq, if◌then◌else◌, leb, ltb, lookup, insert, remove_key,
}
use scd.Xray.{Server, World, Error}
use scd.Outbound.{Builder}
use scd.Apply.Slots.{Resources}
use scd.Memory.{
  Tunnel, TunnelMonitor, Flap, no_flap, degraded, healthy, Source, Target, source_waiting,
}
use scd.Monitor.{
  Level, debug, info, warn, error, Line, tunnel_down, tunnel_stable, tunnel_recovered,
  source_recovered, tunnel_rejoin_failed, is_some, should_rejoin, stable_after, down_after,
  flap_level, update_tunnel, view_tunnel, note_rejoin_error,
}
use scd.Monitor.Probe.{Response}
use scd.Monitor.Repair.{Run}
use scd.Monitor.Rejoin.{rejoin, unjoined_tunnel}

abbrev first_time : Option ℕ → ℕ → Option ℕ
first_time none now = some now
first_time (some since) now = some since

-- The monitor after a failed check, and the flaps of an episode that it ends.
unfoldable pub failed_monitor : String → ℕ → TunnelMonitor → TunnelMonitor × ℕ
failed_monitor msg now m =
    let row = suc m.failures_in_row in
    let ends = is_some m.flap.since && row == down_after in
    (
      record m {
        state = degraded;
        last_checked_at = some now;
        last_failure_at = some now;
        last_status_code = none;
        last_latency_ms = none;
        last_error = msg;
        consecutive_failures = suc m.consecutive_failures;
        failures_in_row = row;
        failing_since = first_time m.failing_since now;
        flap = if ends then no_flap else record m.flap { last_fail_at = some now };
      },
      if ends then m.flap.count else 0,
    )

abbrev pub failed_check : String → ℕ → Tunnel → Tunnel
failed_check msg now tn = record tn { monitor = (failed_monitor msg now tn.monitor).0 }

abbrev down_lines : Bool → TunnelMonitor × ℕ → List Line
down_lines waiting (m, flaps) =
    if ltb 0 flaps
    then tunnel_down (if waiting then debug else warn) m.failures_in_row flaps ∷ []
    else []

abbrev down_of : String → ℕ → Bool → Option Tunnel → List Line
down_of msg now waiting none = []
down_of msg now waiting (some tn) = down_lines waiting (failed_monitor msg now tn.monitor)

-- What a failed check records and logs, of the tunnel of a source.
unfoldable pub check_failed :
    {F : Type 0} → String → String → String → ℕ → Target F → Target F × List Line
unfolding failed_monitor update_tunnel view_tunnel
check_failed id source_id msg now t =
    let t' = update_tunnel id (failed_check msg now) t in
    (t', down_of msg now (source_waiting t' source_id) (view_tunnel id t))

abbrev since_fail : Option ℕ → ℕ → ℕ
since_fail none now = now
since_fail (some at_time) now = now - at_time

-- In an episode, with no failed check for stableAfter. A time that is not set lies before all others.
abbrev long_ago : Option ℕ → ℕ → Bool
long_ago none now = true
long_ago (some at_time) now = leb stable_after (now - at_time)

unfoldable pub is_stable : Flap → ℕ → Bool
is_stable f now = is_some f.since && long_ago f.last_fail_at now

-- The monitor after a check that passed.
unfoldable pub passed_monitor : Response → ℕ → TunnelMonitor → TunnelMonitor
unfolding is_stable
passed_monitor r now m = record m {
  failing_since = none;
  last_repair_error = "";
  state = healthy;
  last_checked_at = some now;
  last_success_at = some now;
  last_status_code = some r.status_code;
  last_latency_ms = some r.latency_ms;
  last_success_status_code = some r.status_code;
  last_success_latency_ms = some r.latency_ms;
  last_error = "";
  consecutive_failures = 0;
  failures_in_row = 0;
  flap = if is_stable m.flap now then no_flap else m.flap;
}

abbrev pub passed_check : Response → ℕ → Tunnel → Tunnel
passed_check r now tn = record tn { monitor = passed_monitor r now tn.monitor }

abbrev revived : {F : Type 0} → String → Source F → Source F
revived id src = record src {
  no_replacement = remove_key id src.no_replacement;
  no_live_since = none;
}

abbrev pub revive :
    {F : Type 0} → String → String → ℕ → Option (Source F) → Target F → Target F × List Line
revive id source_id now none t = (t, [])
revive id source_id now (some src) t = (
  record t { sources = insert source_id (revived id src) t.sources },
  elim src.no_live_since [ none ↦ [] | some since ↦ source_recovered (now - since) ∷ [] ],
)

abbrev failed_time : Option ℕ → ℕ → Option ℕ
failed_time none now = none
failed_time (some since) now = some (now - since)

abbrev recovered : Option ℕ → Level → List Line
recovered none level = []
recovered (some d) level = tunnel_recovered level (some d) ∷ []

-- tunnel_stable and tunnel_recovered, of the tunnel before the check, and failedFor.
abbrev passed_lines : Response → ℕ → Option Tunnel → List Line × Option ℕ
passed_lines r now none = ([], none)
passed_lines r now (some tn) =
    let d = failed_time tn.monitor.failing_since now in
    let stable =
      if is_stable tn.monitor.flap now then tunnel_stable tn.monitor.flap.count ∷ [] else [] in
    let back = recovered d (flap_level (passed_monitor r now tn.monitor) info) in
    (stable ++ (if should_rejoin tn.mapping then [] else back), d)

-- What a check that passed records and logs before the rejoin, and for how long the tunnel had failed.
unfoldable pub check_passed :
    {F : Type 0} → String → String → Response → ℕ → Target F → (Target F × List Line) × Option ℕ
unfolding passed_monitor update_tunnel view_tunnel should_rejoin flap_level
check_passed id source_id r now t =
    let (lines, d) = passed_lines r now (view_tunnel id t) in
    let t' = update_tunnel id (passed_check r now) t in
    let (t'', more) = revive id source_id now (lookup source_id t'.sources) t' in
    ((t'', more ++ lines), d)

abbrev repeats : String → Option Tunnel → Bool
repeats msg none = false
repeats msg (some tn) = (note_rejoin_error tn.monitor msg).1

-- A rejoin that could not connect.
unfoldable pub rejoin_refused :
    {F S : Type 0} → String → List Line → Option Error × Run F S → Run F S
unfolding note_rejoin_error update_tunnel view_tunnel
rejoin_refused id lines (none, run) = record run { lines = lines ++ run.lines }
rejoin_refused id lines (some e, run) =
    let level = if repeats e.message (view_tunnel id run.target) then debug else error in
    record run {
      target = update_tunnel id (unjoined_tunnel false e.message) run.target;
      lines = lines ++ run.lines ++ tunnel_rejoin_failed level ∷ [];
    }

module _ {F S : Type 0} (srv : Server S) (res : Resources) (b : Builder) where
  -- checkTunnel after a check that passed.
  unfoldable pub after_passed :
      String → String → Response → Option Error → ℕ → ℕ → Target F → World S → Run F S
  unfolding check_passed rejoin rejoin_refused
  after_passed id source_id r dial now rejoined t w =
      let ((t', lines), d) = check_passed id source_id r now t in
      rejoin_refused id lines (rejoin srv res b id dial d rejoined t' w)
