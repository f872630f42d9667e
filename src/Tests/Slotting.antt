-- ===== src/Tests/Slotting.antt =====
-- The tunnel of a slot and the orphans (internal/scd/apply/tunnel.go, namespace.go) at concrete inputs.
use scd.Prelude.{
  ◌≤◌, ◌≡◌, refl, String, Bool, true, false, string_eq, some, List, [], ◌∷◌, map, contains, All,
}
use scd.Xray.{World, ok, Handler, Kind, outbound, inbound, routing}
use scd.Topology.{new_tunnel}
use scd.Apply.{owns}
use scd.Apply.Cap.{count_owned}
use scd.Apply.Orphans.{remove_orphans}
use scd.Apply.Orphans.Swept.{sweeping, Spared, remove_orphans-Safe}
use scd.Apply.Slots.{Resources, add_tunnel, replace_tunnel}
use scd.Apply.Slots.Three.{Lists, three, Absent}
use scd.Apply.Slots.Added.{Outcome, add_tunnel-Outcome}
use scd.Apply.Slots.Bounded.{replace_tunnel-Bounded}
use scd.Tests.Applying.{source, handler}
use scd.Tests.Planning.{tunnel, builder, target}

abbrev pub slot_resources : Resources
slot_resources = record {
  inbound_of = λ tn. ok (handler tn.inbound_tag);
  rule_of = λ tn tag. handler tn.route_tag;
}

abbrev three_lists : Lists
three_lists = record {
  outbounds = handler "direct" ∷ handler "de-9" ∷ [];
  inbounds = handler "api" ∷ [];
  rules = handler "api" ∷ [];
}

abbrev three_world : World Lists
three_world = record { server = three_lists; calls = [] }

-- Xray refuses every routing rule.
abbrev rules_bad : Kind → Handler → Bool
rules_bad outbound h = false
rules_bad inbound h = false
rules_bad routing h = true

abbrev new_outbound : Handler
new_outbound = record { tag = "obs-de-1"; config = "vless://" }

new-Absent : Absent "obs-de-1" three_lists.outbounds
unfolding contains
new-Absent = refl

in-Absent : Absent "in-de-1" three_lists.inbounds
unfolding contains
in-Absent = refl

route-Absent : Absent "route-de-1" three_lists.rules
unfolding contains
route-Absent = refl

add_tunnel-Outcome_example :
    let r = add_tunnel (three rules_bad) slot_resources builder tunnel three_world in
    Outcome three_lists new_outbound (handler "in-de-1") (handler "route-de-1") r.0 r.1.server
unfolding new_tunnel
add_tunnel-Outcome_example =
    add_tunnel-Outcome rules_bad slot_resources tunnel new_outbound (handler "in-de-1") builder
      three_world refl refl refl refl refl new-Absent in-Absent route-Absent

abbrev used_world : World Lists
used_world = record {
  server = record {
    outbounds = handler "obs-de-1" ∷ handler "direct" ∷ [];
    inbounds = [];
    rules = [];
  };
  calls = [];
}

current_listed :
    contains (map (λ h. h.tag) used_world.server.outbounds) tunnel.outbound_tag_current ≡ true
unfolding contains new_tunnel
current_listed = refl

current_owned : owns source outbound tunnel.outbound_tag_current ≡ true
unfolding owns new_tunnel
current_owned = refl

current_free : contains [] tunnel.outbound_tag_current ≡ false
unfolding contains new_tunnel
current_free = refl

replace_tunnel-Bounded_example :
    count_owned []
      (owns source)
      (replace_tunnel
        (three rules_bad)
        slot_resources
        builder
        tunnel
        tunnel
        used_world).1.1.server.outbounds
    ≤ count_owned [] (owns source) used_world.server.outbounds
replace_tunnel-Bounded_example =
    replace_tunnel-Bounded rules_bad slot_resources [] (owns source) builder tunnel tunnel
      used_world current_listed current_free current_owned

remove_orphans-Safe_example :
    let done =
      (remove_orphans
        (three rules_bad)
        target
        (source ∷ [])
        (outbound ∷ inbound ∷ [])
        three_world).1 in
    All (λ c. sweeping target (source ∷ []) (outbound ∷ inbound ∷ []) c ≡ true) done.world.calls
    × ((tags : List String)
        → done.outbounds ≡ some tags
        → All (Spared target (source ∷ []) (outbound ∷ inbound ∷ [])) tags)
remove_orphans-Safe_example =
    remove_orphans-Safe (three rules_bad) target (source ∷ []) (outbound ∷ inbound ∷ []) three_world
      refl
