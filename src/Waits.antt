-- ===== src/Waits.antt =====
-- internal/scd/state/wait.go and internal/scd/monitor/wait.go: the wait of a source for its
-- dependencies, as applyWaits changes it. A time is a number of nanoseconds.
pub mod Over
pub mod Recorded
pub mod Ended
use scd.Prelude.{
  ℕ, suc, ◌+◌, ◌-◌, ◌*◌, String, Bool, true, false, not, ◌&&◌, ◌||◌, Option, none, some, List, [],
  ◌∷◌, string_eq, ◌==◌, lookup, insert, map, is_empty, ltb, if◌then◌else◌,
}

-- DepHealth.State; `unchecked` is "", before the first check.
pub data Health : Type 0 where
  dep_healthy dep_unhealthy dep_unknown unchecked : Health

pub record DepHealth : Type 0 where
  pub state : Health
  pub since : Option ℕ
  pub recovered_at : Option ℕ
  pub grace_until : Option ℕ

pub record SourceWait : Type 0 where
  pub since : Option ℕ
  pub reset_at : Option ℕ
  pub deps : List (String × DepHealth)

-- config.DependencyConfig: its name, recoverGraceSeconds and the health that was found, which is
-- unknown when there is none.
pub record Dependency : Type 0 where
  pub name : String
  pub grace_seconds : ℕ
  pub found : Health

abbrev pub second : ℕ
second = 1_000_000_000

abbrev pub is_healthy : Health → Bool
is_healthy dep_healthy = true
is_healthy dep_unhealthy = false
is_healthy dep_unknown = false
is_healthy unchecked = false

abbrev pub same_health : Health → Health → Bool
same_health dep_healthy dep_healthy = true
same_health dep_unhealthy dep_unhealthy = true
same_health dep_unknown dep_unknown = true
same_health unchecked unchecked = true
same_health _ _ = false

-- health[…], or unknown.
abbrev pub checked : Health → Health
checked unchecked = dep_unknown
checked h = h

abbrev pub is_set : Option ℕ → Bool
is_set none = false
is_set (some n) = true

abbrev pub or_new : Option DepHealth → DepHealth
or_new none = record { state = unchecked; since = none; recovered_at = none; grace_until = none }
or_new (some d) = d

-- The first switch: a dependency that is not healthy has no pause, and one that is healthy again
-- during a wait starts its pause.
unfoldable pub pause : ℕ → Bool → ℕ → Health → DepHealth → DepHealth
pause now waiting grace st d =
    if not (is_healthy st)
    then record d { recovered_at = none; grace_until = none }
    else if not (is_healthy d.state) && waiting
    then record d { recovered_at = some now; grace_until = some (now + grace * second) }
    else d

unfoldable pub enter : ℕ → Health → DepHealth → DepHealth
enter now st d = if same_health d.state st then d else record d { state = st; since = some now }

unfoldable pub check_dep : ℕ → Bool → Dependency → DepHealth → DepHealth
unfolding pause enter
check_dep now waiting dep d =
    let st = checked dep.found in enter now st (pause now waiting dep.grace_seconds st d)

abbrev pub pausing : ℕ → Option ℕ → Bool
pausing now none = false
pausing now (some until) = ltb now until

-- The loop over the dependencies: the health of each, the names that are not healthy, and whether one
-- is in its pause.
pub record Checked : Type 0 where
  pub deps : List (String × DepHealth)
  pub bad : List String
  pub in_grace : Bool

unfoldable pub note_dep :
    ℕ → Bool → Dependency → DepHealth → List (String × DepHealth) → Checked → Checked
note_dep now waiting dep d deps rest = record {
  deps = rest.deps;
  bad = if is_healthy (checked dep.found) then rest.bad else dep.name ∷ rest.bad;
  in_grace = pausing now d.grace_until || rest.in_grace;
}

unfoldable pub check_deps : ℕ → Bool → List Dependency → List (String × DepHealth) → Checked
unfolding check_dep note_dep
check_deps now waiting [] deps = record { deps = deps; bad = []; in_grace = false }
check_deps now waiting (dep ∷ rest) deps =
    let d = check_dep now waiting dep (or_new (lookup dep.name deps)) in
    let deps' = insert dep.name d deps in
    note_dep now waiting dep d deps' (check_deps now waiting rest deps')

-- waitEvent: the start with the bad dependencies, or the end with the length of the wait.
pub data Event : Type 0 where
  no_event : Event
  started : List String → Event
  ended : ℕ → Event

abbrev pub end_pause : String × DepHealth → String × DepHealth
end_pause (name, d) = (name, record d { recovered_at = none; grace_until = none })

-- The second switch.
unfoldable pub settle_wait : ℕ → SourceWait → Option ℕ → Checked → SourceWait × Event
settle_wait now w none c =
    if is_empty c.bad
    then (record w { deps = c.deps }, no_event)
    else (record w { deps = c.deps; since = some now }, started c.bad)
settle_wait now w (some since) c =
    if is_empty c.bad && not c.in_grace
    then (
      record { since = none; reset_at = some now; deps = map end_pause c.deps },
      ended (now - since),
    )
    else (record w { deps = c.deps }, no_event)

-- One source, while the Xray API of the target answers.
unfoldable pub apply_wait : ℕ → List Dependency → SourceWait → SourceWait × Event
unfolding check_deps settle_wait
apply_wait now deps w = settle_wait now w w.since (check_deps now (is_set w.since) deps w.deps)

-- A tunnel of the target, as far as the end of a wait is concerned.
pub record Failures : Type 0 where
  pub source_id : String
  pub failures_in_row : ℕ

-- tn.Monitor.FailuresInRow = 0
abbrev pub cleared : Failures → Failures
cleared tn = record tn { failures_in_row = 0 }

unfoldable pub reset_failures : String → List Failures → List Failures × ℕ
reset_failures source [] = ([], 0)
reset_failures source (tn ∷ tns) =
    let (rest, n) = reset_failures source tns in
    if tn.source_id == source && ltb 0 tn.failures_in_row
    then (cleared tn ∷ rest, suc n)
    else (tn ∷ rest, n)
