-- ===== src/Tests/Monitoring.antt =====
-- The checks, repairs and rejoins of a tunnel (internal/scd/monitor) at concrete inputs.
use scd.Prelude.{
  ℕ, ◌≡◌, ◌≢◌, ◌==◌, refl, sym, ap, zero, suc, Bool, true, false, string_eq, none, some, List, [],
  ◌∷◌, map, contains, ==_false→ne, inl, lookup, find_first, any, select,
}
use scd.Xray.{World, ok, err, Handler, Kind, outbound, inbound, routing}
use scd.Topology.{new_tunnel}
use scd.Monitor.{view_tunnel}
use scd.Memory.{Tunnel, Target, new_target, idle_monitor, healthy}
use scd.Apply.Slots.Three.{Lists, three}
use scd.Monitor.Probe.{Retry, Response, Answer, response, refused, probe_with_retry, passed, others}
use scd.Monitor.Retried.{Shows, probe_with_retry-Shows}
use scd.Monitor.Series.{
  Event, check_fails, check_passes, repaired, monitored, Series, monitored-Series,
}
use scd.Monitor.Single.{Tagged, both}
use scd.Monitor.Plain.{listed, three-Documented}
use scd.Monitor.Tags.{Tags}
use scd.Monitor.Runs.{Op, repairs, rejoins, steps, steps-Single}
use scd.Monitor.Recovery.{down_and_up, down_and_up-Recovers}
use scd.Monitor.Repair.{repair}
use scd.Monitor.Rejoin.{rejoin}
use scd.Tests.Applying.{handler}
use scd.Tests.Planning.{tunnel, builder}
use scd.Tests.Slotting.{slot_resources}

abbrev watched : Target ℕ
watched = record new_target { tunnels = record { mapping = tunnel; monitor = idle_monitor } ∷ [] }

abbrev running : World Lists
running = record {
  server = record {
    outbounds = handler "direct" ∷ handler "obs-de-1" ∷ [];
    inbounds = handler "in-de-1" ∷ [];
    rules = handler "route-de-1" ∷ [];
  };
  calls = [];
}

-- Xray refuses the routing rules.
abbrev refuses : Kind → Handler → Bool
refuses outbound h = false
refuses inbound h = false
refuses routing h = true

abbrev ops : List Op
ops = repairs none 10 11 ∷ rejoins none none 20 ∷ repairs none 30 31 ∷ []

outbounds_after :
    map
      (λ h. h.tag)
      (steps
        (three refuses)
        slot_resources
        builder
        "de-1"
        ops
        (watched, running)).1.server.outbounds
    ≡ "direct" ∷ "de-1" ∷ []
unfolding repair rejoin new_tunnel new_target lookup find_first contains any select
outbounds_after = refl

builder-Tagged : Tagged builder
builder-Tagged spec h e = sym (ap (λ r. elim r [ ok g ↦ g.tag | err x ↦ spec.tag ]) e)

watched-Tags : Tags "de-1" "obs-de-1" "de-1" watched
unfolding new_tunnel new_target
watched-Tags = (
  λ e. record {
    initial = refl;
    unprefixed = refl;
    initial_json = refl;
    unprefixed_json = refl;
    current = inl refl;
  },
  tt,
)

running-both : both listed "obs-de-1" "de-1" running.server ≡ false
unfolding contains
running-both = refl

steps-Single_example :
    let s = steps (three refuses) slot_resources builder "de-1" ops (watched, running) in
    Tags "de-1" "obs-de-1" "de-1" s.0 × (both listed "obs-de-1" "de-1" s.1.server ≡ false)
steps-Single_example =
    steps-Single (three refuses) listed (three-Documented refuses) slot_resources builder
      builder-Tagged "de-1" "obs-de-1" "de-1" (==_false→ne "obs-de-1" "de-1" refl) ops watched
      running watched-Tags running-both

abbrev answers : ℕ → Answer
answers zero = refused "timeout"
answers (suc n) = response (record { status_code = 204; latency_ms = 12 })

abbrev open_all : ℕ → Bool
open_all n = false

abbrev retry : Retry
retry = record { attempts = 3; delay_ms = 100 }

second_passes :
    probe_with_retry 204 answers open_all retry
    ≡ passed (record { status_code = 204; latency_ms = 12 })
unfolding probe_with_retry
second_passes = refl

probe_with_retry-Shows_example :
    Shows 204 answers open_all 0 (others 3) (probe_with_retry 204 answers open_all retry)
probe_with_retry-Shows_example = probe_with_retry-Shows 204 answers open_all retry

-- Three repaired failures within the window, then a second failure in a row.
abbrev events : List Event
events =
    check_fails "timeout" 60
    ∷ repaired false none 51
    ∷ check_fails "timeout" 50
    ∷ check_passes (record { status_code = 204; latency_ms = 9 }) 40
    ∷ repaired false none 31
    ∷ check_fails "timeout" 30
    ∷ check_passes (record { status_code = 204; latency_ms = 9 }) 20
    ∷ repaired false none 11
    ∷ check_fails "timeout" 10
    ∷ []

abbrev watched_tunnel : Tunnel
watched_tunnel = record { mapping = tunnel; monitor = idle_monitor }

episode_since : (monitored watched_tunnel events).flap.since ≡ some 11
unfolding monitored select
episode_since = refl

monitored-Series_example : Series events (monitored watched_tunnel events)
monitored-Series_example = monitored-Series watched_tunnel events

watched_view : view_tunnel "de-1" watched ≡ some watched_tunnel
unfolding view_tunnel find_first new_target new_tunnel
watched_view = refl

inbound_there :
    any (λ i. i.tag == watched_tunnel.mapping.inbound_tag) running.server.inbounds ≡ true
unfolding any new_tunnel
inbound_there = refl

abbrev up_response : Response
up_response = record { status_code = 204; latency_ms = 8 }

abbrev prefixed : Handler
prefixed = record { tag = "obs-de-1"; config = "vless://" }

abbrev unprefixed : Handler
unprefixed = record { tag = "de-1"; config = "vless://" }

tags_apart :
    watched_tunnel.mapping.outbound_tag_initial ≢ watched_tunnel.mapping.outbound_without_prefix.tag
unfolding new_tunnel
tags_apart = ==_false→ne "obs-de-1" "de-1" refl

initial_current :
    watched_tunnel.mapping.outbound_tag_current ≡ watched_tunnel.mapping.outbound_tag_initial
unfolding new_tunnel
initial_current = refl

prefixed_built : builder.to_proto watched_tunnel.mapping.outbound_initial.json ≡ ok prefixed
unfolding new_tunnel
prefixed_built = refl

unprefixed_built :
    builder.to_proto watched_tunnel.mapping.outbound_without_prefix.json ≡ ok unprefixed
unfolding new_tunnel
unprefixed_built = refl

prefixed_tag : prefixed.tag ≡ watched_tunnel.mapping.outbound_tag_initial
unfolding new_tunnel
prefixed_tag = refl

down_and_up-Recovers_example :
    let run =
      down_and_up slot_resources builder "de-1" "de" "timeout" up_response 10 11 12 70 71 watched
        running in
    ((tn : Tunnel) × ((view_tunnel "de-1" run.target ≡ some tn)
        × ((tn.mapping ≡ watched_tunnel.mapping) × (tn.monitor.state ≡ healthy))))
    × ((listed watched_tunnel.mapping.outbound_tag_initial run.world.server ≡ true)
        × (listed watched_tunnel.mapping.outbound_without_prefix.tag run.world.server ≡ false))
down_and_up-Recovers_example =
    down_and_up-Recovers slot_resources builder "de-1" "de" "timeout" up_response 10 11 12 70 71
      watched running watched_tunnel prefixed unprefixed watched_view initial_current tags_apart
      inbound_there prefixed_built unprefixed_built prefixed_tag
