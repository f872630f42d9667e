-- ===== src/Monitor/Retried.antt =====
-- internal/scd/monitor/tunnels.go: what the result of a probe with retries says of its attempts.
use scd.Prelude.{
  ℕ, zero, suc, ◌+◌, ◌≤◌, ◌<◌, ◌≡◌, refl, subst, String, Bool, true, false, arith, ◌⊎◌, inl, inr,
  ◌==◌, nat_eq, Bool-cases,
}
use scd.Monitor.Probe.{
  Retry, Answer, Probed, passed, failed, cancelled, judge, retry_after, attempts_left, others,
  probe_with_retry,
}

module _ (want : ℕ) (probe : ℕ → Answer) (shut : ℕ → Bool) where
  abbrev pub result : ℕ → Probed
  result k = judge want (probe k)

  -- An attempt that fails, and one that fails before a pause that no shutdown ends.
  abbrev pub Fails : ℕ → Type 0
  Fails k = (msg : String) × (result k ≡ failed msg)

  abbrev pub Retries : ℕ → Type 0
  Retries k = Fails k × (shut k ≡ false)

  -- All attempts from the first one on, before k.
  abbrev pub Before : ℕ → ℕ → Type 0
  Before first k = (j : ℕ) → first ≤ j → j < k → Retries j

  -- What the result of an attempt k, the last one, says, where an attempt `last` has no pause.
  abbrev pub Ends : ℕ → ℕ → Probed → Type 0
  Ends last k (passed r) = result k ≡ passed r
  Ends last k (failed msg) = (k ≡ last) × (result k ≡ failed msg)
  Ends last k cancelled = (result k ≡ cancelled) ⊎ (Fails k × (shut k ≡ true))

  pub record Shows (first last : ℕ) (p : Probed) : Type 0 where
    pub final : ℕ
    pub after : first ≤ final
    pub within : final ≤ last
    pub before : Before first final
    pub ends : Ends last final p

  none-Before : (k : ℕ) → Before k k
  none-Before k j a b = let never : ⊥ = omega arith in elim never [ ]

  one_more : (first k : ℕ) → Retries first → Before (suc first) k → Before first k
  one_more first k r rest j a b = elim (Bool-cases (first == j)) [
    | inl y ↦ subst Retries (ground (arith, y)) r
    | inr n ↦ rest j (ground (arith, a, n)) b
  ]

  at_once : (last first : ℕ) (p : Probed) → first ≤ last → Ends last first p → Shows first last p
  at_once last first p l e = record {
    final = first;
    after = omega arith;
    within = l;
    before = none-Before first;
    ends = e;
  }

  later :
      (last first : ℕ) (p : Probed) → Retries first → Shows (suc first) last p → Shows first last p
  later last first p r s = record {
    final = s.final;
    after = omega (arith, s.after);
    within = s.within;
    before = one_more first s.final r s.before;
    ends = s.ends;
  }

  last-Ends : (k : ℕ) (p : Probed) → result k ≡ p → Ends k k p
  last-Ends k (passed r) e = e
  last-Ends k (failed msg) e = (refl, e)
  last-Ends k cancelled e = inl e

  retried-Shows :
      (last first : ℕ) (p : Probed) (b : Bool) (next : Probed)
      → result first ≡ p
      → shut first ≡ b
      → first ≤ last
      → Shows (suc first) last next
      → Shows first last (retry_after p b next)
  retried-Shows last first (passed r) b next e f l s = at_once last first (passed r) l e
  retried-Shows last first cancelled b next e f l s = at_once last first cancelled l (inl e)
  retried-Shows last first (failed msg) true next e f l s =
      at_once last first cancelled l (inr ((msg, e), f))
  retried-Shows last first (failed msg) false next e f l s = later last first next ((msg, e), f) s

  attempts_left-Shows :
      (n first last : ℕ)
      → first + n ≡ last
      → Shows first last (attempts_left want probe shut n first)
  unfolding attempts_left
  attempts_left-Shows zero first last e =
      let same : first ≡ last = omega (arith, e) in
      subst (λ l. Shows first l (result first)) same
        (at_once first first (result first) (omega arith) (last-Ends first (result first) refl))
  attempts_left-Shows (suc n) first last e =
      retried-Shows last first (result first) (shut first) _ refl refl (omega (arith, e))
        (attempts_left-Shows n (suc first) last (omega (arith, e)))

  -- A probe makes between one and max(1, attempts) attempts. All but its last one failed and were
  -- followed by a pause that no shutdown ended. It passes if the last one has the expected status; it
  -- fails, with the error of its last attempt, only after all of them; and otherwise a
  -- shutdown ended the last attempt, or the pause after it failed.
  pub probe_with_retry-Shows :
      (retry : Retry) → Shows 0 (others retry.attempts) (probe_with_retry want probe shut retry)
  unfolding probe_with_retry
  probe_with_retry-Shows retry = attempts_left-Shows (others retry.attempts) 0 _ (omega arith)
