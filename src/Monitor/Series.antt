-- ===== src/Monitor/Series.antt =====
-- internal/scd/monitor and state.go: the monitor of a tunnel over any sequence of checks, repairs,
-- rejoins, waits and replacements of its topology. At the end of a wait (wait.go) the failures in a row
-- are forgotten.
use scd.Prelude.{
  ℕ, suc, ◌≤◌, ◌<◌, ◌-◌, ◌≡◌, refl, ap, String, Bool, true, false, ◌&&◌, Option, none, some, List,
  [], ◌∷◌, ◌++◌, ◌==◌, nat_eq, ltb, length, select, Bool-cases, inl, inr, arith, string_eq,
}
use scd.Memory.{Tunnel, TunnelMonitor, Flap, idle_monitor}
use scd.Memory.Tunnels.{kept_monitor}
use scd.Monitor.{
  flap_limit, flap_window, down_after, fresh_series, start_flap, add_outside, add_flap,
  note_rejoin_error,
}
use scd.Monitor.Probe.{Response}
use scd.Monitor.Repair.{repaired_monitor, begun, failed_tunnel, lost_tunnel}
use scd.Monitor.Rejoin.{unjoined_tunnel, rejoined_tunnel}
use scd.Monitor.Check.{failed_monitor, passed_monitor, is_stable}

-- What happens to a tunnel. A replacement of the topology knows whether the source lost its Xray state.
pub data Event : Type 0 where
  check_fails : String → ℕ → Event
  check_passes : Response → ℕ → Event
  repair_begins lost : Event
  repair_fails : Bool → String → ℕ → Event
  repaired : Bool → Option ℕ → ℕ → Event
  rejoin_fails : Bool → String → Event
  rejoins wait_ends : Event
  replaced : Bool → Event

-- The monitor of a tunnel after an event.
abbrev pub follow : Event → Tunnel → TunnelMonitor
follow (check_fails msg now) tn = (failed_monitor msg now tn.monitor).0
follow (check_passes r now) tn = passed_monitor r now tn.monitor
follow repair_begins tn = (begun tn).monitor
follow lost tn = (lost_tunnel tn).monitor
follow (repair_fails added msg now) tn = (failed_tunnel added msg now tn).monitor
follow (repaired waiting reset_at now) tn = (repaired_monitor waiting reset_at now tn.monitor).0
follow (rejoin_fails stuck msg) tn = (unjoined_tunnel stuck msg tn).monitor
follow rejoins tn = (rejoined_tunnel tn).monitor
follow (replaced lost_state) tn = kept_monitor lost_state (some tn)
follow wait_ends tn = record tn.monitor { failures_in_row = 0 }

-- The events, the newest first, of a tunnel that was new before them.
unfoldable pub monitored : Tunnel → List Event → TunnelMonitor
unfolding failed_monitor passed_monitor repaired_monitor
monitored tn [] = idle_monitor
monitored tn (e ∷ es) = follow e (record tn { monitor = monitored tn es })

-- The failed checks since the last one that passed, of this topology, and since the last wait.
abbrev pub row_of : List Event → ℕ
row_of [] = 0
row_of (check_fails msg now ∷ es) = suc (row_of es)
row_of (check_passes r now ∷ es) = 0
row_of (replaced lost_state ∷ es) = 0
row_of (wait_ends ∷ es) = 0
row_of (_ ∷ es) = row_of es

-- The failed checks since the last one that passed or that a repair followed, of this topology.
abbrev pub unrepaired_of : List Event → ℕ
unrepaired_of [] = 0
unrepaired_of (check_fails msg now ∷ es) = suc (unrepaired_of es)
unrepaired_of (check_passes r now ∷ es) = 0
unrepaired_of (repaired waiting reset_at now ∷ es) = 0
unrepaired_of (replaced lost_state ∷ es) = 0
unrepaired_of (_ ∷ es) = unrepaired_of es

-- When the first failed check was, of any topology, since the last one that passed and the last topology
-- that replaced one of a source that lost its Xray state.
abbrev earliest : Option ℕ → ℕ → Option ℕ
earliest none now = some now
earliest (some since) now = some since

abbrev pub failing_of : List Event → Option ℕ
failing_of [] = none
failing_of (check_fails msg now ∷ es) = earliest (failing_of es) now
failing_of (check_passes r now ∷ es) = none
failing_of (replaced true ∷ es) = none
failing_of (replaced false ∷ es) = failing_of es
failing_of (_ ∷ es) = failing_of es

-- Outside an episode fewer than three flaps are kept; in one there were three, and the tunnel has not
-- failed three times in a row.
abbrev pub Flapping : Option ℕ → Flap → ℕ → Type 0
Flapping none f row = (f.count ≡ 0) × (length f.times < flap_limit)
Flapping (some since) f row = (flap_limit ≤ f.count) × ((length f.times ≡ 0) × (row < down_after))

pub record Series (es : List Event) (m : TunnelMonitor) : Type 0 where
  pub row : m.failures_in_row ≡ row_of es
  pub failing : m.failing_since ≡ failing_of es
  pub consecutive : m.consecutive_failures ≡ unrepaired_of es
  pub flapping : Flapping m.flap.since m.flap m.failures_in_row

start_flap-Flapping :
    (times : List ℕ) (now : ℕ) (f : Flap) (row : ℕ)
    → f.count ≡ 0
    → f.since ≡ none
    → row < down_after
    → let g = (start_flap times now f).0 in Flapping g.since g row
unfolding start_flap
start_flap-Flapping times now f row c s r = elim (Bool-cases (ltb (length times) flap_limit)) [
  | inl y ↦ rw (y, s) (c, ground (arith, y))
  | inr n ↦ rw n (ground (arith, n), (refl, r))
]

add_outside-Flapping :
    (since : Option ℕ) (now : ℕ) (f : Flap) (row : ℕ)
    → f.since ≡ since
    → row < down_after
    → Flapping since f row
    → let g = (add_outside since now f).0 in Flapping g.since g row
unfolding add_outside
add_outside-Flapping none now f row s r (c, l) =
    start_flap-Flapping (select (λ at_time. ltb (now - at_time) flap_window) f.times ++ now ∷ [])
      now f row c s r
add_outside-Flapping (some since) now f row s r (c, (l, k)) = rw s (omega (arith, c), (l, k))

add_flap-Flapping :
    (f : Flap) (now row : ℕ)
    → row < down_after
    → Flapping f.since f row
    → let g = (add_flap f now).0 in Flapping g.since g row
unfolding add_flap
add_flap-Flapping f now row r h = add_outside-Flapping f.since now f row refl r h

-- A failure series does not leave an episode that it ends.
failed-Flapping :
    (msg : String) (now : ℕ) (m : TunnelMonitor) (since : Option ℕ)
    → m.flap.since ≡ since
    → Flapping since m.flap m.failures_in_row
    → let n = (failed_monitor msg now m).0 in Flapping n.flap.since n.flap n.failures_in_row
unfolding failed_monitor
failed-Flapping msg now m none e h = rw e h
failed-Flapping msg now m (some since) e (c, (l, k)) =
    elim (Bool-cases (suc m.failures_in_row == down_after)) [
      | inl y ↦ rw (e, y) (refl, unfold length in omega arith)
      | inr n ↦ rw (e, n) (c, (l, ground (arith, k, n)))
    ]

kept-Flapping :
    (f : Flap) (row : ℕ) (since : Option ℕ)
    → f.since ≡ since
    → Flapping since f row
    → Flapping f.since f 0
kept-Flapping f row none e h = rw e h
kept-Flapping f row (some since) e (c, (l, k)) = rw e (c, (l, omega arith))

passed-Flapping :
    (r : Response) (now : ℕ) (m : TunnelMonitor)
    → Flapping m.flap.since m.flap m.failures_in_row
    → let n = passed_monitor r now m in Flapping n.flap.since n.flap n.failures_in_row
unfolding passed_monitor
passed-Flapping r now m h = elim (Bool-cases (is_stable m.flap now)) [
  | inl y ↦ rw y (refl, unfold length in omega arith)
  | inr n ↦ rw n (kept-Flapping m.flap m.failures_in_row m.flap.since refl h)
]

-- A repair counts a flap at the first failed check of a series only.
repaired-Flapping :
    (waiting : Bool) (reset_at : Option ℕ) (now : ℕ) (m : TunnelMonitor)
    → Flapping m.flap.since m.flap m.failures_in_row
    → let n = (repaired_monitor waiting reset_at now m).0 in
      Flapping n.flap.since n.flap n.failures_in_row
unfolding repaired_monitor
repaired-Flapping waiting reset_at now m h =
    elim (Bool-cases (m.failures_in_row == 1 && fresh_series m waiting reset_at)) [
      | inl y ↦ rw y (add_flap-Flapping m.flap now m.failures_in_row (ground (arith, y)) h)
      | inr n ↦ rw n h
    ]

follow-Series :
    (e : Event) (es : List Event) (tn : Tunnel)
    → Series es tn.monitor
    → Series (e ∷ es) (follow e tn)
unfolding failed_monitor passed_monitor repaired_monitor note_rejoin_error
follow-Series (check_fails msg now) es tn h = record {
  row = ap suc h.row;
  failing = ap (λ o. earliest o now) h.failing;
  consecutive = ap suc h.consecutive;
  flapping = failed-Flapping msg now tn.monitor tn.monitor.flap.since refl h.flapping;
}
follow-Series (check_passes r now) es tn h = record {
  row = refl;
  failing = refl;
  consecutive = refl;
  flapping = passed-Flapping r now tn.monitor h.flapping;
}
follow-Series repair_begins es tn h = record {
  row = h.row;
  failing = h.failing;
  consecutive = h.consecutive;
  flapping = h.flapping;
}
follow-Series lost es tn h = record {
  row = h.row;
  failing = h.failing;
  consecutive = h.consecutive;
  flapping = h.flapping;
}
follow-Series (repair_fails added msg now) es tn h = record {
  row = h.row;
  failing = h.failing;
  consecutive = h.consecutive;
  flapping = h.flapping;
}
follow-Series (repaired waiting reset_at now) es tn h = record {
  row = h.row;
  failing = h.failing;
  consecutive = refl;
  flapping = repaired-Flapping waiting reset_at now tn.monitor h.flapping;
}
follow-Series (rejoin_fails stuck msg) es tn h = record {
  row = h.row;
  failing = h.failing;
  consecutive = h.consecutive;
  flapping = h.flapping;
}
follow-Series rejoins es tn h = record {
  row = h.row;
  failing = h.failing;
  consecutive = h.consecutive;
  flapping = h.flapping;
}
follow-Series (replaced true) es tn h = record {
  row = refl;
  failing = refl;
  consecutive = refl;
  flapping = (refl, unfold length in omega arith);
}
follow-Series (replaced false) es tn h = record {
  row = refl;
  failing = h.failing;
  consecutive = refl;
  flapping =
      kept-Flapping tn.monitor.flap tn.monitor.failures_in_row tn.monitor.flap.since refl
        h.flapping;
}
follow-Series wait_ends es tn h = record {
  row = refl;
  failing = h.failing;
  consecutive = h.consecutive;
  flapping =
      kept-Flapping tn.monitor.flap tn.monitor.failures_in_row tn.monitor.flap.since refl
        h.flapping;
}

-- Over any sequence of checks, repairs, rejoins, losses, ends of waits and replacements of the topology,
-- of a tunnel that was new: the failures in a row are the failed checks since the last one that passed
-- and the last wait, of the same topology; the consecutive failures are those since the last one that
-- passed or was repaired, of the same topology; failingSince is the time of the first failed check since
-- the last one that passed, of any topology since the last replacement for a source that had lost its Xray
-- state. Outside a flap episode fewer than three flaps are kept; in one at least three were counted, and
-- the tunnel has failed fewer than three times in a row.
pub monitored-Series : (tn : Tunnel) (es : List Event) → Series es (monitored tn es)
unfolding monitored
monitored-Series tn [] = record {
  row = refl;
  failing = refl;
  consecutive = refl;
  flapping = (refl, unfold length in omega arith);
}
monitored-Series tn (e ∷ es) =
    follow-Series e es (record tn { monitor = monitored tn es }) (monitored-Series tn es)
