-- ===== src/Waits/Over.antt =====
-- internal/scd/monitor/wait.go: whether every dependency of a source is healthy and out of its pause.
use scd.Prelude.{
  ℕ, ◌+◌, ◌*◌, ◌≡◌, refl, sym, ap, ◌∙◌, ◌↔◌, String, Bool, true, false, not, ◌&&◌, ◌||◌, none, some,
  List, [], ◌∷◌, string_eq, ◌==◌, lookup, insert, lookup-insert, map, is_empty, contains, Distinct,
  All, arith, Bool-cases, inl, inr, Option, ltb, leb, if◌then◌else◌, and_true,
}
use scd.Waits.{
  Health, dep_healthy, dep_unhealthy, dep_unknown, unchecked, DepHealth, Dependency, second,
  is_healthy, same_health, checked, or_new, pause, enter, check_dep, pausing, note_dep, check_deps,
}

abbrev pub is_well : Health → Bool
is_well dep_healthy = true
is_well dep_unhealthy = false
is_well dep_unknown = false
is_well unchecked = false

-- There is no pause, or its end has come.
abbrev pub has_passed : ℕ → Option ℕ → Bool
has_passed now none = true
has_passed now (some until) = leb until now

-- The dependency is healthy now, and its pause is over: the pause that was recorded, if it was healthy
-- before, or else the one that starts now.
abbrev pub over : ℕ → Dependency → DepHealth → Bool
over now dep d =
    is_well dep.found
    && (if is_well d.state
        then has_passed now d.grace_until
        else leb (now + dep.grace_seconds * 1_000_000_000) now)

pub is_well-checked : (h : Health) → is_healthy (checked h) ≡ is_well h
is_well-checked dep_healthy = refl
is_well-checked dep_unhealthy = refl
is_well-checked dep_unknown = refl
is_well-checked unchecked = refl

pub is_well-is_healthy : (h : Health) → is_healthy h ≡ is_well h
is_well-is_healthy dep_healthy = refl
is_well-is_healthy dep_unhealthy = refl
is_well-is_healthy dep_unknown = refl
is_well-is_healthy unchecked = refl

not-ltb : (now until : ℕ) → not (ltb now until) ≡ leb until now
not-ltb now until = ground arith

not-pausing : (now : ℕ) (o : Option ℕ) → not (pausing now o) ≡ has_passed now o
not-pausing now none = refl
not-pausing now (some until) = not-ltb now until

pub grace-enter :
    (now : ℕ) (st : Health) (d : DepHealth) → (enter now st d).grace_until ≡ d.grace_until
unfolding enter
grace-enter now st d = elim (Bool-cases (same_health d.state st)) [
  | inl y ↦ rw y refl
  | inr n ↦ rw n refl
]

-- The pause of a dependency that is healthy now, by its recorded health.
grace-pause :
    (now grace : ℕ) (st : Health) (d : DepHealth)
    → is_healthy st ≡ true
    → pausing now (pause now true grace st d).grace_until
      ≡ (if is_healthy d.state then pausing now d.grace_until else ltb now (now + grace * second))
unfolding pause
grace-pause now grace st d h = elim (Bool-cases (is_healthy d.state)) [
  | inl y ↦ rw (h, y) refl
  | inr n ↦ rw (h, n) refl
]

check_dep_lem :
    (now : ℕ) (dep : Dependency) (d : DepHealth)
    → (is_healthy (checked dep.found) && not (pausing now (check_dep now true dep d).grace_until))
      ≡ over now dep d
unfolding check_dep
check_dep_lem now dep d =
    let st = checked dep.found in
    let p = pause now true dep.grace_seconds st d in
    let same = ap (pausing now) (grace-enter now st p) in
    elim (Bool-cases (is_healthy st)) [
      | inr n ↦ ground (arith, is_well-checked dep.found)
      | inl y ↦ ground (
        arith,
        same,
        grace-pause now dep.grace_seconds st d y,
        is_well-checked dep.found,
        is_well-is_healthy d.state,
        not-pausing now d.grace_until,
        not-ltb now (now + dep.grace_seconds * 1_000_000_000),
      )
    ]

-- Every dependency, with the health that was recorded before.
abbrev pub AllOver : ℕ → List (String × DepHealth) → List Dependency → Type 0
AllOver now recorded = All (λ dep. over now dep (or_new (lookup dep.name recorded)) ≡ true)

pub lookup_other :
    (name n : String) (d : DepHealth) (m : List (String × DepHealth))
    → (name == n) ≡ false
    → lookup n (insert name d m) ≡ lookup n m
lookup_other name n d m h = lookup-insert name n d m ∙ (rw h refl)

-- The record of one dependency does not matter for others.
AllOver-insert :
    (now : ℕ) (name : String) (d : DepHealth) (m : List (String × DepHealth))
    (deps : List Dependency)
    → contains (map (λ dep. dep.name) deps) name ≡ false
    → AllOver now (insert name d m) deps ↔ AllOver now m deps
unfolding contains
AllOver-insert now name d m [] c = ground arith
AllOver-insert now name d m (dep ∷ deps) c =
    let same =
      ap (λ o. over now dep (or_new o)) (lookup_other name dep.name d m (ground (arith, c))) in
    let rest = AllOver-insert now name d m deps (ground (arith, c)) in
    ((λ a. (sym same ∙ a.0, rest.0 a.1)), (λ a. (same ∙ a.0, rest.1 a.1)))

round :
    (h p g : Bool) (bad : List String) (name : String)
    → (is_empty (if h then bad else name ∷ bad) && not (p || g))
      ≡ ((h && not p) && (is_empty bad && not g))
round true p g bad name = ground arith
round false p g bad name = refl

pub both : (a b : Bool) → a ≡ true → b ≡ true → (a && b) ≡ true
both a b p q = ground arith

pub check_deps_lem :
    (now : ℕ) (deps : List Dependency) (m : List (String × DepHealth))
    → Distinct (map (λ dep. dep.name) deps)
    → let c = check_deps now true deps m in
      ((is_empty c.bad && not c.in_grace) ≡ true) ↔ AllOver now m deps
unfolding check_deps note_dep
check_deps_lem now [] m d = ground arith
check_deps_lem now (dep ∷ deps) m d =
    let old = or_new (lookup dep.name m) in
    let new = check_dep now true dep old in
    let c = check_deps now true deps (insert dep.name new m) in
    let same =
      round (is_healthy (checked dep.found)) (pausing now new.grace_until) c.in_grace c.bad dep.name
      ∙ ap (λ a. a && (is_empty c.bad && not c.in_grace)) (check_dep_lem now dep old) in
    let rest = check_deps_lem now deps (insert dep.name new m) d.1 in
    let others = AllOver-insert now dep.name new m deps d.0 in
    (
      (λ h. let (a, b) = and_true _ _ (sym same ∙ h) in (a, others.0 (rest.0 b))),
      (λ h.
          same
          ∙ both (over now dep old) (is_empty c.bad && not c.in_grace) h.0 (rest.1 (others.1 h.1))),
    )
