-- ===== src/Monitor/Rejoin.antt =====
-- internal/scd/monitor/repair.go: the rejoin of one tunnel, under the lock of its target.
-- Connecting fails with the given error, if any. The clock is read once, after the calls.
use scd.Prelude.{
  ℕ, String, Bool, ◌||◌, Option, none, some, List, [], ◌∷◌, ◌++◌, string_eq, nat_eq, if◌then◌else◌,
  append,
}
use scd.Xray.{Server, World, Error}
use scd.Outbound.{Builder}
use scd.Apply.Slots.{Resources}
use scd.State.{answered}
use scd.Memory.{Tunnel, Target}
use scd.Monitor.{
  debug, info, error, Line, tunnel_rejoin_failed, tunnel_rejoined_balancer, should_rejoin,
  flap_level, update_tunnel, view_tunnel, note_rejoin_error,
}
use scd.Monitor.Calls.{rejoin_calls}
use scd.Monitor.Repair.{Run, call_of, noted_xray, cap_refused, on_initial}

abbrev pub rejoin_failed_prefix : String
rejoin_failed_prefix = "Tunnel healthy but balancer rejoin failed: "

-- The tunnel after a failed rejoin.
abbrev pub unjoined_tunnel : Bool → String → Tunnel → Tunnel
unjoined_tunnel stuck msg tn = record tn {
  mapping = if stuck then on_initial tn.mapping else tn.mapping;
  monitor = record (note_rejoin_error tn.monitor msg).0 {
    last_error = append rejoin_failed_prefix msg;
  };
}

unfoldable pub rejoin_failed :
    {F : Type 0} → Tunnel → Error → Bool → ℕ → Target F → Target F × List Line
unfolding cap_refused noted_xray update_tunnel note_rejoin_error
rejoin_failed cur e stuck now t =
    let (t', lines) = noted_xray (call_of e) now (cap_refused cur.mapping e t) in
    let quiet = e.unavailable || (note_rejoin_error cur.monitor e.message).1 in
    (
      update_tunnel cur.mapping.base_tunnel_id (unjoined_tunnel stuck e.message) t',
      lines ++ tunnel_rejoin_failed (if quiet then debug else error) ∷ [],
    )

abbrev pub rejoined_tunnel : Tunnel → Tunnel
rejoined_tunnel tn = record tn {
  mapping = on_initial tn.mapping;
  monitor = record tn.monitor { last_error = ""; last_rejoin_error = "" };
}

unfoldable pub rejoin_done : {F : Type 0} → Tunnel → Option ℕ → ℕ → Target F → Target F × List Line
unfolding noted_xray update_tunnel flap_level
rejoin_done cur failed_for now t =
    let (t', lines) = noted_xray answered now t in
    (
      update_tunnel cur.mapping.base_tunnel_id rejoined_tunnel t',
      lines ++ tunnel_rejoined_balancer (flap_level cur.monitor info) failed_for ∷ [],
    )

module _ {F S : Type 0} (srv : Server S) (res : Resources) (b : Builder) where
  abbrev pub rejoin_ends : World S → Target F × List Line → Run F S
  rejoin_ends w (t, lines) = record { target = t; world = w; lines = lines }

  abbrev pub rejoin_called :
      Tunnel → Option ℕ → ℕ → Target F → Option (Error × Bool) × World S → Run F S
  rejoin_called cur failed_for now t (some (e, stuck), w) =
      rejoin_ends w (rejoin_failed cur e stuck now t)
  rejoin_called cur failed_for now t (none, w) = rejoin_ends w (rejoin_done cur failed_for now t)

  abbrev pub rejoin_dialled :
      Tunnel → Option Error → Option ℕ → ℕ → Target F → World S → Option Error × Run F S
  rejoin_dialled cur (some e) failed_for now t w =
      (some e, record { target = t; world = w; lines = [] })
  rejoin_dialled cur none failed_for now t w = (
    none,
    rejoin_called cur failed_for now t
        (rejoin_calls srv res b cur.mapping (on_initial cur.mapping) w),
  )

  abbrev pub rejoin_found :
      Option Tunnel → Option Error → Option ℕ → ℕ → Target F → World S → Option Error × Run F S
  rejoin_found none dial failed_for now t w = (none, record { target = t; world = w; lines = [] })
  rejoin_found (some cur) dial failed_for now t w =
      let run = rejoin_dialled cur dial failed_for now t w in
      if should_rejoin cur.mapping
      then run
      else (none, record { target = t; world = w; lines = [] })

  -- rejoin
  unfoldable pub rejoin :
      String → Option Error → Option ℕ → ℕ → Target F → World S → Option Error × Run F S
  unfolding should_rejoin view_tunnel rejoin_calls rejoin_failed rejoin_done
  rejoin id dial failed_for now t w = rejoin_found (view_tunnel id t) dial failed_for now t w
