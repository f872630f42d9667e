-- ===== src/Waits/Recorded.antt =====
-- internal/scd/monitor/wait.go: what a check records of the dependencies of a source that waits.
use scd.Prelude.{
  ℕ, ◌+◌, ◌*◌, ◌≡◌, refl, ap, ◌∙◌, String, true, false, none, some, List, [], ◌∷◌, string_eq,
  ==_refl, lookup, insert, lookup-insert, map, contains, Distinct, All, arith, Bool-cases, inl, inr,
  Option, if◌then◌else◌,
}
use scd.Waits.{
  Health, dep_healthy, dep_unhealthy, dep_unknown, unchecked, DepHealth, Dependency, same_health,
  checked, or_new, pause, enter, check_dep, note_dep, check_deps,
}
use scd.Waits.Over.{is_well, is_well-checked, is_well-is_healthy, grace-enter, lookup_other}

-- The pause of a dependency after this check: none if it is not healthy, the recorded one if it was, and
-- otherwise one that starts now.
abbrev pub next_pause : ℕ → Dependency → DepHealth → Option ℕ
next_pause now dep d =
    if is_well dep.found
    then (if is_well d.state then d.grace_until else some (now + dep.grace_seconds * 1_000_000_000))
    else none

-- The health of a dependency that is recorded after this check, by the one before.
abbrev pub Recorded :
    ℕ → List (String × DepHealth) → List (String × DepHealth) → Dependency → Type 0
Recorded now old new dep =
    (d : DepHealth) × ((lookup dep.name new ≡ some d)
      × (d.state ≡ checked dep.found)
      × (d.grace_until ≡ next_pause now dep (or_new (lookup dep.name old))))

same_health_lem : (a b : Health) → same_health a b ≡ true → a ≡ b
same_health_lem dep_healthy dep_healthy e = refl
same_health_lem dep_unhealthy dep_unhealthy e = refl
same_health_lem dep_unknown dep_unknown e = refl
same_health_lem unchecked unchecked e = refl
same_health_lem dep_healthy dep_unhealthy e = cc
same_health_lem dep_healthy dep_unknown e = cc
same_health_lem dep_healthy unchecked e = cc
same_health_lem dep_unhealthy dep_healthy e = cc
same_health_lem dep_unhealthy dep_unknown e = cc
same_health_lem dep_unhealthy unchecked e = cc
same_health_lem dep_unknown dep_healthy e = cc
same_health_lem dep_unknown dep_unhealthy e = cc
same_health_lem dep_unknown unchecked e = cc
same_health_lem unchecked dep_healthy e = cc
same_health_lem unchecked dep_unhealthy e = cc
same_health_lem unchecked dep_unknown e = cc

state-enter : (now : ℕ) (st : Health) (d : DepHealth) → (enter now st d).state ≡ st
unfolding enter
state-enter now st d = elim (Bool-cases (same_health d.state st)) [
  | inl y ↦ rw y (same_health_lem d.state st y)
  | inr n ↦ rw n refl
]

next_pause_lem :
    (now : ℕ) (dep : Dependency) (d : DepHealth)
    → (check_dep now true dep d).grace_until ≡ next_pause now dep d
unfolding check_dep pause
next_pause_lem now dep d =
    let st = checked dep.found in
    let p = pause now true dep.grace_seconds st d in
    grace-enter now st p ∙ ground (arith, is_well-checked dep.found, is_well-is_healthy d.state)

-- A dependency of another name keeps its record.
check_deps-keeps :
    (now : ℕ) (name : String) (deps : List Dependency) (m : List (String × DepHealth))
    → contains (map (λ dep. dep.name) deps) name ≡ false
    → lookup name (check_deps now true deps m).deps ≡ lookup name m
unfolding check_deps note_dep contains
check_deps-keeps now name [] m c = refl
check_deps-keeps now name (dep ∷ deps) m c =
    let d = check_dep now true dep (or_new (lookup dep.name m)) in
    check_deps-keeps now name deps (insert dep.name d m) (ground (arith, c))
    ∙ lookup_other dep.name name d m
        (ground (arith, c, string_eq.beq_iff name dep.name, string_eq.beq_iff dep.name name))

Recorded-others :
    (now : ℕ) (name : String) (d : DepHealth) (m new : List (String × DepHealth))
    (deps : List Dependency)
    → contains (map (λ dep. dep.name) deps) name ≡ false
    → All (Recorded now (insert name d m) new) deps
    → All (Recorded now m new) deps
unfolding contains
Recorded-others now name d m new [] c a = tt
Recorded-others now name d m new (dep ∷ deps) c ((x, (l, h, g)), a) =
    let same =
      ap (λ o. next_pause now dep (or_new o))
        (lookup_other name dep.name d m (ground (arith, c))) in
    ((x, (l, h, g ∙ same)), Recorded-others now name d m new deps (ground (arith, c)) a)

pub check_deps-Recorded :
    (now : ℕ) (deps : List Dependency) (m : List (String × DepHealth))
    → Distinct (map (λ dep. dep.name) deps)
    → All (Recorded now m (check_deps now true deps m).deps) deps
unfolding check_deps note_dep contains
check_deps-Recorded now [] m d = tt
check_deps-Recorded now (dep ∷ deps) m d =
    let old = or_new (lookup dep.name m) in
    let new = check_dep now true dep old in
    let m' = insert dep.name new m in
    (
      (
        new,
        (
          check_deps-keeps now dep.name deps m' d.0
              ∙ (lookup-insert dep.name dep.name new m ∙ rw (==_refl dep.name) refl),
          state-enter now (checked dep.found) _,
          next_pause_lem now dep old,
        ),
      ),
      Recorded-others now dep.name new m _ deps d.0 (check_deps-Recorded now deps m' d.1),
    )
