-- ===== src/Monitor/Calls.antt =====
-- internal/scd/monitor/repair.go: the calls of a repair and of a rejoin. The client is a server as
-- Apply/Cap makes it.
use scd.Prelude.{String, Bool, true, false, Option, none, some, List, ◌==◌, string_eq, any}
use scd.Xray.{
  Server, World, Error, Result, ok, err, Handler, outbound, inbound, routing, list, add, remove,
}
use scd.Topology.{Tunnel}
use scd.Outbound.{Builder}
use scd.Apply.Slots.{Resources}

module _ {S : Type 0} (srv : Server S) where
  abbrev pub present : String → Result (List Handler) × World S → Result Bool × World S
  present tag (err e, w) = (err e, w)
  present tag (ok hs, w) = (ok (any (λ h. h.tag == tag) hs), w)

  -- hasInbound
  unfoldable pub has_inbound : String → World S → Result Bool × World S
  unfolding list
  has_inbound tag w = present tag (list srv inbound w)

module _ {S : Type 0} (srv : Server S) (res : Resources) where
  abbrev pub rule_added : Tunnel → World S → Option Error × World S
  rule_added tn w = add srv routing (res.rule_of tn tn.outbound_tag_current) w

  abbrev pub restore : Tunnel → Option Error × World S → Option Error × World S
  restore cur (none, w) = (none, w)
  restore cur (some e, w) = (some e, (rule_added cur w).1)

  -- removeTunnel
  unfoldable pub remove_tunnel : Tunnel → World S → Option Error × World S
  unfolding add remove
  remove_tunnel cur w =
      restore cur
        (remove srv outbound cur.outbound_tag_current (remove srv routing cur.route_tag w).1)

  abbrev pub add_repaired : Tunnel → Option Error × World S → Bool × (Option Error × World S)
  add_repaired repaired (some e, w) = (false, (some e, w))
  add_repaired repaired (none, w) = (true, rule_added repaired w)

  abbrev pub repair_removed :
      Tunnel → Handler → Option Error × World S → Bool × (Option Error × World S)
  repair_removed repaired h (some e, w) = (false, (some e, w))
  repair_removed repaired h (none, w) = add_repaired repaired (add srv outbound h w)

  abbrev pub repair_built :
      Tunnel → Tunnel → Result Handler → World S → Bool × (Option Error × World S)
  repair_built cur repaired (err e) w = (false, (some e, w))
  repair_built cur repaired (ok h) w = repair_removed repaired h (remove_tunnel cur w)

  -- repairCalls: whether the unprefixed outbound was added, and the error.
  unfoldable pub repair_calls :
      Builder → Tunnel → Tunnel → World S → Bool × (Option Error × World S)
  unfolding remove_tunnel
  repair_calls b cur repaired w =
      repair_built cur repaired (b.to_proto repaired.outbound_without_prefix.json) w

  -- The rollback of a rejoin; a stuckOnInitialError is the error with true.
  abbrev pub roll_back :
      Tunnel → Handler → Error → Option Error × World S → Option (Error × Bool) × World S
  roll_back cur unprefixed e (some stuck, w) = (some (e, true), w)
  roll_back cur unprefixed e (none, w) =
      (some (e, false), (rule_added cur (add srv outbound unprefixed w).1).1)

  abbrev pub or_roll_back :
      Tunnel → Tunnel → Handler → Option Error × World S → Option (Error × Bool) × World S
  or_roll_back cur rejoined unprefixed (none, w) = (none, w)
  or_roll_back cur rejoined unprefixed (some e, w) =
      roll_back cur unprefixed e (remove srv outbound rejoined.outbound_tag_current w)

  abbrev pub add_rejoined : Tunnel → Option Error × World S → Option Error × World S
  add_rejoined rejoined (some e, w) = (some e, w)
  add_rejoined rejoined (none, w) = rule_added rejoined w

  abbrev pub rejoin_removed :
      Tunnel → Tunnel → Handler → Handler → Option Error × World S → Option (Error × Bool) × World S
  rejoin_removed cur rejoined initial unprefixed (some e, w) = (some (e, false), w)
  rejoin_removed cur rejoined initial unprefixed (none, w) =
      or_roll_back cur rejoined unprefixed (add_rejoined rejoined (add srv outbound initial w))

  abbrev pub rejoin_built :
      Tunnel → Tunnel → Result Handler → Result Handler → World S → Option (Error × Bool) × World S
  rejoin_built cur rejoined (err e) u w = (some (e, false), w)
  rejoin_built cur rejoined (ok initial) (err e) w = (some (e, false), w)
  rejoin_built cur rejoined (ok initial) (ok unprefixed) w =
      rejoin_removed cur rejoined initial unprefixed (remove_tunnel cur w)

  -- rejoinCalls
  unfoldable pub rejoin_calls :
      Builder → Tunnel → Tunnel → World S → Option (Error × Bool) × World S
  unfolding remove_tunnel
  rejoin_calls b cur rejoined w =
      rejoin_built cur rejoined (b.to_proto rejoined.outbound_initial.json)
        (b.to_proto cur.outbound_without_prefix.json) w
