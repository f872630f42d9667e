-- ===== src/Tests/Noting.antt =====
-- The issues of a target and the waits of a source (internal/scd/state, monitor/wait.go) at concrete
-- inputs.
use scd.Prelude.{
  ◌⊎◌, ℕ, ◌↔◌, refl, false, none, some, List, [], ◌∷◌, arith, map, contains, Distinct, string_eq,
}
use scd.State.{Issues, answered, unavailable, Line, note_xray, set_state_lost, clear_state_lost}
use scd.Waits.{SourceWait, Dependency, dep_healthy, dep_unhealthy, apply_wait}
use scd.Waits.Ended.{Ends, GoesOn, apply_wait-Ends_iff}
use scd.Waits.Over.{AllOver}
use scd.State.Episodes.{start, next, Alternates, episode, run-Alternates}
use scd.State.Losses.{Reaches, Lost, reaches-Lost}

abbrev healthy : Issues
healthy = record {
  xray_down = none;
  state_lost = [];
  state_lost_since = 0;
  state_lost_logged = false;
}

abbrev failing : Issues
failing = (note_xray healthy (unavailable "timeout") 5).0

abbrev lines : List (Line × ℕ)
lines =
    ((note_xray failing answered 9).1, 9)
    ∷ ((note_xray healthy (unavailable "timeout") 5).1, 5)
    ∷ []

run-Alternates_example : Alternates lines (episode (note_xray failing answered 9).0.xray_down)
run-Alternates_example =
    run-Alternates refl (next answered 9 (next (unavailable "timeout") 5 start))

abbrev lost : Issues
lost = (set_state_lost healthy "de" 4).0

reaches-Lost_example : Lost 8 (clear_state_lost lost "de" 6 8).0
reaches-Lost_example = reaches-Lost (
    Reaches.clears "de" 6 8 (omega arith)
      (Reaches.sets "de" 4 (omega arith) (Reaches.start refl refl)))

abbrev waiting : SourceWait
waiting = record {
  since = some 100;
  reset_at = none;
  deps =
      (
        "a",
        record { state = dep_unhealthy; since = some 100; recovered_at = none; grace_until = none },
      )
      ∷ (
        "b",
        record {
          state = dep_healthy;
          since = some 90;
          recovered_at = some 90;
          grace_until = some 150;
        },
      )
      ∷ [];
}

abbrev two_deps : List Dependency
two_deps =
    record { name = "a"; grace_seconds = 0; found = dep_healthy }
    ∷ record { name = "b"; grace_seconds = 30; found = dep_healthy }
    ∷ []

two_names : Distinct (map (λ dep. dep.name) two_deps)
unfolding contains
two_names = (refl, (refl, tt))

apply_wait-Ends_iff_example :
    let r = apply_wait 200 two_deps waiting in
    (Ends 200 100 r ↔ AllOver 200 waiting.deps two_deps)
    × (Ends 200 100 r ⊎ GoesOn 200 100 two_deps waiting r)
apply_wait-Ends_iff_example = apply_wait-Ends_iff 200 100 two_deps waiting refl two_names
