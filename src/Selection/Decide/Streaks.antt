-- ===== src/Selection/Decide/Streaks.antt =====
-- internal/scd/selection/decide.go: the counts of better candidates that Decide leaves.
use scd.Prelude.{
  not, nat_eq, some, none, sym, Bool-cases, ℕ, suc, ◌<◌, leb, All, All-insert, All-remove_inserted,
  subst, ◌≡◌, refl, String, true, inl, inr, List, [], ◌∷◌, arith, string_eq, Among, lookup, Option,
  ◌||◌,
}
use scd.Selection.{Candidate, Floats}
use scd.Selection.Quarantine.{State, pair_eq}
use scd.Selection.Decide.{
  Action, Slot, Taken, SelectionConfig, improve, improve_slot, expire, current, is_by_label,
  excluded, count_better, look_for_better, repeated, switch, is_keep, beats, count_of, series,
}

module _ {F : Type 0} (floats : Floats F) (active : List (Slot F)) (ranked : List (Candidate F))
    (st : State) (cfg : SelectionConfig) where
  -- A count that Decide leaves: one more than before, for a candidate that beat a healthy slot's one.
  abbrev pub Streak : String × ℕ → Type 0
  Streak (k, n) =
      (n ≡ suc (count_of (lookup k st.better)))
      × (n < cfg.switch_confirm_checks)
      × ((a : Slot F) × ((c : Candidate F) × (Among a active
              × Among c ranked
              × (a.healthy ≡ true)
              × (k ≡ series (current ranked a) c)
              × (beats floats c (current ranked a) cfg ≡ true))))

  module _ (now : ℕ) where
    abbrev st' : State
    st' = expire st now

    count_better-Streaks :
        (better : List (String × ℕ)) (a : Slot F) (c : Candidate F)
        → Among a active
        → Among c ranked
        → a.healthy ≡ true
        → beats floats c (current ranked a) cfg ≡ true
        → All Streak better
        → All Streak (count_better ranked st' now floats cfg better (current ranked a) c).1
    unfolding count_better expire
    count_better-Streaks better a c ma mc h b all =
        let k = series (current ranked a) c in
        let n = suc (count_of (lookup k st.better)) in
        elim (Bool-cases (leb cfg.switch_confirm_checks n)) [
          | inl enough ↦ rw enough (All-remove_inserted Streak k n better all)
          | inr early ↦ rw early (
              All-insert Streak k n better
                (refl, ground (arith, early), (a, (c, (ma, mc, h, refl, b)))) all)
        ]

    look_for_better-Streaks :
        (t : Taken) (better : List (String × ℕ)) (a : Slot F) (seen : List ℕ)
        (cs : List (Candidate F))
        → Among a active
        → ((c : Candidate F) → Among c cs → Among c ranked)
        → a.healthy ≡ true
        → All Streak better
        → All Streak
            (look_for_better ranked st' now floats cfg t better (current ranked a) seen cs).1
    unfolding look_for_better
    look_for_better-Streaks t better a seen [] ma sub h all = all
    look_for_better-Streaks t better a seen (c ∷ cs) ma sub h all =
        let cur = current ranked a in
        let skip = look_for_better-Streaks t better a seen cs ma (λ d m. sub d (inr m)) h all in
        let skip_seen =
          look_for_better-Streaks t better a (c.key ∷ seen) cs ma (λ d m. sub d (inr m)) h all in
        elim (Bool-cases (excluded st' now t cur c)) [
          | inl out ↦ rw out skip
          | inr allowed ↦ elim (Bool-cases (repeated seen c)) [
            | inl again ↦ rw (allowed, again) skip
            | inr fresh ↦ elim (Bool-cases (beats floats c cur cfg)) [
              | inl wins ↦
                  rw (allowed, fresh, wins)
                    (count_better-Streaks better a c ma (sub c (inl refl)) h wins all)
              | inr loses ↦ rw (allowed, fresh, loses) skip_seen
            ]
          ]
        ]

    switch_better :
        (t : Taken) (cur : Candidate F) (action : Action F)
        (found : Option (Candidate F) × List (String × ℕ))
        → (switch t cur action found).2 ≡ found.1
    unfolding switch
    switch_better t cur action (some c, better) = refl
    switch_better t cur action (none, better) = refl

    improve_slot-Streaks :
        (t : Taken) (better : List (String × ℕ)) (a : Slot F) (action : Action F)
        → Among a active
        → All Streak better
        → All Streak (improve_slot ranked st' now floats cfg t better a action).2
    unfolding improve_slot
    improve_slot-Streaks t better a action ma all =
        elim (Bool-cases
          (not (is_keep action.kind) || (not a.healthy || is_by_label cfg.strategy))) [
            | inl skips ↦ rw skips all
            | inr looks ↦ rw looks (
                subst (All Streak) (sym (switch_better _ (current ranked a) action _)) (
                  look_for_better-Streaks _ better a [] ranked ma (λ c m. m) (ground (arith, looks))
                    all))
          ]

    pub improve-Streaks :
        (t : Taken) (better : List (String × ℕ)) (rest : List (Slot F)) (actions : List (Action F))
        → ((a : Slot F) → Among a rest → Among a active)
        → All Streak better
        → All Streak (improve ranked st' now floats cfg t better rest actions).1
    unfolding improve
    improve-Streaks t better [] actions sub all = all
    improve-Streaks t better (a ∷ rest) [] sub all = all
    improve-Streaks t better (a ∷ rest) (action ∷ actions) sub all =
        let r = improve_slot ranked st' now floats cfg t better a action in
        improve-Streaks r.1 r.2 rest actions (λ b m. sub b (inr m))
          (improve_slot-Streaks t better a action (sub a (inl refl)) all)
