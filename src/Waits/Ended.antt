-- ===== src/Waits/Ended.antt =====
-- internal/scd/monitor/wait.go: when the wait of a source ends, and what it leaves.
use scd.Prelude.{
  ℕ, ◌≡◌, refl, sym, ◌∙◌, subst, ◌↔◌, String, Bool, true, false, not, ◌&&◌, none, some, ◌⊎◌, ◌≢◌,
  ◌-◌, List, [], ◌∷◌, string_eq, map, is_empty, Distinct, All, Bool-cases, inl, inr,
}
use scd.Waits.{
  DepHealth, SourceWait, Dependency, is_set, Checked, check_deps, Event, no_event, end_pause, ended,
  settle_wait, apply_wait,
}
use scd.Waits.Over.{AllOver, check_deps_lem}
use scd.Waits.Recorded.{Recorded, check_deps-Recorded}

-- No dependency is in a pause.
abbrev pub Unpaused : List (String × DepHealth) → Type 0
Unpaused = All (λ (name, d). (d.recovered_at ≡ none) × (d.grace_until ≡ none))

-- The wait is over, and said so with its length.
abbrev pub Ends : ℕ → ℕ → SourceWait × Event → Type 0
Ends now since (w, e) =
    (w.since ≡ none) × (w.reset_at ≡ some now) × Unpaused w.deps × (e ≡ ended (now - since))

-- It goes on with the health of each dependency recorded, and nothing was said.
abbrev pub GoesOn : ℕ → ℕ → List Dependency → SourceWait → SourceWait × Event → Type 0
GoesOn now since deps old (w, e) =
    (w.since ≡ some since)
    × (w.reset_at ≡ old.reset_at)
    × All (Recorded now old.deps w.deps) deps
    × (e ≡ no_event)

end_pause-Unpaused : (deps : List (String × DepHealth)) → Unpaused (map end_pause deps)
end_pause-Unpaused [] = tt
end_pause-Unpaused ((name, d) ∷ deps) = ((refl, refl), end_pause-Unpaused deps)

settle_wait-Ends :
    (now since : ℕ) (deps : List Dependency) (w : SourceWait) (c : Checked)
    → w.since ≡ some since
    → All (Recorded now w.deps c.deps) deps
    → let r = settle_wait now w (some since) c in
      (((is_empty c.bad && not c.in_grace) ≡ true) × Ends now since r)
      ⊎ (((is_empty c.bad && not c.in_grace) ≡ false) × GoesOn now since deps w r)
unfolding settle_wait
settle_wait-Ends now since deps w c s a = elim (Bool-cases (is_empty c.bad && not c.in_grace)) [
  | inl y ↦ rw y (inl (refl, (refl, refl, end_pause-Unpaused c.deps, refl)))
  | inr n ↦ rw n (inr (refl, (s, refl, a, refl)))
]

-- The test of the code decides between both.
Ends_or_GoesOn :
    (now since : ℕ) (deps : List Dependency) (w : SourceWait) (r : SourceWait × Event) (b : Bool)
    (P : Type 0)
    → (b ≡ true) ↔ P
    → ((b ≡ true) × Ends now since r) ⊎ ((b ≡ false) × GoesOn now since deps w r)
    → (Ends now since r ↔ P) × (Ends now since r ⊎ GoesOn now since deps w r)
Ends_or_GoesOn now since deps w r b P k (inl (y, e)) = (((λ x. k.0 y), (λ p. e)), inl e)
Ends_or_GoesOn now since deps w r b P k (inr (n, g)) =
    (((λ x. absurd (some_ne (sym g.0 ∙ x.0))), (λ p. absurd (false_ne (sym n ∙ k.1 p)))), inr g)
  where
    some_ne : some since ≢ none
    some_ne e = cc e

    false_ne : false ≢ true
    false_ne e = cc e

-- A source that waits, with dependencies of different names: its wait ends exactly if every dependency
-- is healthy now and its pause is over, and goes on otherwise. The pause of one that was healthy before
-- is the recorded one, and one that is healthy again starts its pause of recoverGraceSeconds now. At the
-- end the wait has no start, its reset is now, no dependency is in a pause, and the event has the length
-- of the wait; otherwise its start and its last reset stay, there is no event, and the record of each
-- dependency has its health and its pause: none if it is not healthy, the one before if it was healthy, and
-- otherwise one that starts now.
pub apply_wait-Ends_iff :
    (now since : ℕ) (deps : List Dependency) (w : SourceWait)
    → w.since ≡ some since
    → Distinct (map (λ dep. dep.name) deps)
    → let r = apply_wait now deps w in
      (Ends now since r ↔ AllOver now w.deps deps) × (Ends now since r ⊎ GoesOn now since deps w r)
unfolding apply_wait
apply_wait-Ends_iff now since deps w e d =
    let c = check_deps now true deps w.deps in
    subst
      (λ o.
        let r = settle_wait now w o (check_deps now (is_set o) deps w.deps) in
        (Ends now since r ↔ AllOver now w.deps deps)
        × (Ends now since r ⊎ GoesOn now since deps w r))
      (sym e)
      (Ends_or_GoesOn now since deps w (settle_wait now w (some since) c)
        (is_empty c.bad && not c.in_grace) (AllOver now w.deps deps)
        (check_deps_lem now deps w.deps d)
        (settle_wait-Ends now since deps w c e (check_deps-Recorded now deps w.deps d)))
