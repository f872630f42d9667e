-- ===== src/Selection/Decide/Sound.antt =====
-- internal/scd/selection/decide.go: the actions of Decide have their grounds.
use scd.Prelude.{
  not, ◌&&◌, ◌==◌, nat_eq, contains-append, ap, ==→eq, ◌∙◌, Bool-cases, ℕ, suc, All, subst, ◌≡◌,
  refl, String, true, false, inl, inr, List, [], ◌∷◌, map, arith, string_eq, contains, ltb, lookup,
  Distinct, keys, lookup-keep_entries, keep_value, Option,
}
use scd.Selection.{Candidate, Floats}
use scd.Selection.Quarantine.{State, pair_eq, pair, quarantined, in_force}
use scd.Selection.Decide.{
  Action, ActionKind, keep, replace, remove, Slot, Taken, SelectionConfig, tag_of, settle, improve,
  improve_slot, decide, expire, initial, current, excluded, is_keep,
}
use scd.Selection.Decide.Slots.{Improved, improve_slot-Improved}
use scd.Selection.Decide.Grounds.{note_taken, in_file, is_replace, tags_used, Grounded, Answers}
use scd.Selection.Decide.Settling.{AllInUse, settle-Answers, Known-initial}
use scd.Selection.Decide.Used.{
  taken_tags, taken_head, taken_tail, settle-tags, length-settle, improve-taken,
  FirstLine-FirstLineOf,
}
use scd.Selection.Decide.Streaks.{Streak, improve-Streaks}

module _ {F : Type 0} (st : State) (now : ℕ) where
  allowed_tag :
      (t : Taken) (cur c : Candidate F)
      → excluded st now t cur c ≡ false
      → contains t.in_use c.tag ≡ false
  unfolding excluded
  allowed_tag t cur c h = ground arith

  allowed_pair :
      (t : Taken) (cur c : Candidate F)
      → excluded st now t cur c ≡ false
      → (quarantined st c now ≡ false)
        × ((c.key == cur.key && not (c.transport == cur.transport)) ≡ false)
  unfolding excluded
  allowed_pair t cur c h = (ground arith, ground arith)

module _ {F : Type 0} (floats : Floats F) (active : List (Slot F)) (ranked : List (Candidate F))
    (st : State) (now : ℕ) (cfg : SelectionConfig) (used : List String) where
  -- The tags in use are used.
  abbrev Used : Taken → Type 0
  Used t = (s : String) → contains t.in_use s ≡ true → contains used s ≡ true

  more_in_use :
      (t : Taken) (s : String)
      → AllInUse active t
      → (u : String) → contains (map tag_of active) u ≡ true
      → contains (s ∷ t.in_use) u ≡ true
  unfolding contains
  more_in_use t s h u m = ground (arith, h u m)

  more_used :
      (t : Taken) (s : String)
      → Used t
      → contains used s ≡ true
      → (u : String) → contains (s ∷ t.in_use) u ≡ true
      → contains used u ≡ true
  unfolding contains
  more_used t s h is u m = elim (Bool-cases (u == s)) [
    | inl y ↦ ap (contains used) (==→eq u s y) ∙ is
    | inr n ↦ h u (ground (arith, m, n))
  ]

  not_active :
      (t : Taken) (s : String)
      → AllInUse active t
      → contains t.in_use s ≡ false
      → contains (map tag_of active) s ≡ false
  not_active t s h out = ground (arith, h s)

  kept_kind : (kind : ActionKind) → is_keep kind ≡ true → kind ≡ keep
  unfolding is_keep
  kept_kind keep e = refl
  kept_kind replace e = cc
  kept_kind remove e = cc

  -- A slot that the first loop kept took nothing in it.
  kept_took :
      (action : Action F) (taken : List (Candidate F))
      → is_keep action.kind ≡ true
      → note_taken action taken ≡ taken
  kept_took action taken e = rw (kept_kind action.kind e) refl

  kept_there :
      (taken : List (Candidate F)) (a : Slot F) (action : Action F)
      → is_keep action.kind ≡ true
      → Grounded floats active ranked st now cfg used taken action.kind a action
      → in_file ranked a ≡ true
  kept_there taken a action e g =
      subst (λ k. Grounded floats active ranked st now cfg used taken k a action)
        (kept_kind action.kind e) g

  Improved-Grounded :
      (taken : List (Candidate F)) (t : Taken) (i : ℕ) (a : Slot F) (action : Action F)
      (r : Action F × Taken × List (String × ℕ))
      → Improved ranked st now floats cfg t a action r
      → AllInUse active t
      → Used t
      → (is_replace r.0.kind ≡ true → contains used r.0.to.tag ≡ true)
      → action.slot ≡ i
      → Grounded floats active ranked st now cfg used taken action.kind a action
      → (r.0.slot ≡ i)
        × Grounded floats active ranked st now cfg used taken r.0.kind a r.0
        × AllInUse active r.1
        × Used r.1
        × (note_taken action taken ≡ note_taken r.0 taken)
  Improved-Grounded taken t i a action r Improved.as_is h u m s g = (s, g, h, u, refl)
  Improved-Grounded taken t i a action r (Improved.stays k) h u m s g = (s, g, h, u, refl)
  Improved-Grounded taken t i a action r (Improved.switches c k healthy l sw) h u m s g =
      let (pair_free, transport) = allowed_pair st now _ (current ranked a) c sw.allowed in
      (
        s,
        (
          sw.among,
          not_active t c.tag h (allowed_tag st now _ (current ranked a) c sw.allowed),
          pair_free,
          inr (
            kept_there taken a action k g,
            healthy,
            l,
            refl,
            transport,
            FirstLine-FirstLineOf floats ranked st now cfg used active _ a c u sw.allowed sw.first,
            sw.better,
            sw.confirmed,
          ),
        ),
        more_in_use t c.tag h,
        more_used t c.tag u (m refl),
        kept_took action taken k,
      )

  improve-Answers :
      (taken : List (Candidate F)) (t : Taken) (better : List (String × ℕ)) (i : ℕ)
      (rest : List (Slot F)) (actions : List (Action F))
      → AllInUse active t
      → Used t
      → ((s : String)
          → contains (taken_tags (improve ranked st now floats cfg t better rest actions).0) s
            ≡ true
          → contains used s ≡ true)
      → Answers floats active ranked st now cfg used taken i rest actions
      → Answers floats active ranked st now cfg used taken i rest
          (improve ranked st now floats cfg t better rest actions).0
  unfolding improve
  improve-Answers taken t better i [] [] h u m g = tt
  improve-Answers taken t better i [] (action ∷ actions) h u m g = absurd g
  improve-Answers taken t better i (a ∷ rest) [] h u m g = absurd g
  improve-Answers taken t better i (a ∷ rest) (action ∷ actions) h u m g =
      let r = improve_slot ranked st now floats cfg t better a action in
      let final = (improve ranked st now floats cfg r.1 r.2 rest actions).0 in
      let (s, g', h', u', same) =
        Improved-Grounded taken t i a action r
          (improve_slot-Improved ranked st now floats cfg t better a action) h u
          (λ e. m r.0.to.tag (taken_head r.0 final e)) g.0 g.1 in
      (
        s,
        g',
        improve-Answers (note_taken r.0 taken) r.1 r.2 (suc i) rest actions h' u'
            (λ s e. m s (taken_tail r.0 final s e))
            (subst (λ l. Answers floats active ranked st now cfg used l (suc i) rest actions) same
              g.2),
      )

-- What the first loop leaves in use is in use at the end.
Used-settled :
    {F : Type 0} (floats : Floats F) (active : List (Slot F)) (ranked : List (Candidate F))
    (st : State) (now : ℕ) (cfg : SelectionConfig)
    → let r = settle ranked st now (initial ranked active) 0 active in
      let final = (improve ranked st now floats cfg r.1 [] active r.0).0 in
      (s : String) → contains r.1.in_use s ≡ true → contains (tags_used active final) s ≡ true
Used-settled floats active ranked st now cfg s m =
    let t = initial ranked active in
    let r = settle ranked st now t 0 active in
    let final = (improve ranked st now floats cfg r.1 [] active r.0).0 in
    ground (
      arith,
      m,
      settle-tags ranked st now t 0 active s,
      improve-taken floats ranked st now cfg r.1 [] active r.0 s
          (length-settle ranked st now t 0 active),
      contains-append (map tag_of active) (taken_tags final) s,
    )

-- Decide answers with one action for each slot, in slot order. A slot is kept only if its tag is in the
-- file, and loses its candidate for "gone" or "changed" only if it is not, "changed" exactly if its pair
-- is still there; it then gets the first free candidate of the file, and none only if none is free. A
-- candidate is free if no active slot and no candidate taken by a slot before has its tag, no slot whose
-- candidate is in the file and none taken before has its key, and its pair is not in quarantine, once the
-- expired quarantines are dropped. If a slot's own candidate is still there, it gets another one only if the
-- slot is healthy, the strategy is not "label", the new one is in the file, has a tag of no active slot
-- and a pair out of quarantine, is not another transport of the slot's key, beats the slot's one, with
-- this tick has been counted on switchConfirmChecks ticks, and, if it has a transport, is the first line
-- of its key in the file but for lines with a tag of an active slot or of one that an action takes, of
-- another transport of the slot's key, or in quarantine. Of the counts only those are left, one
-- higher than before and short of switchConfirmChecks, whose candidate beat that of a healthy slot on
-- this tick; the others start over.
pub decide-Answers :
    {F : Type 0} (floats : Floats F) (active : List (Slot F)) (ranked : List (Candidate F))
    (st : State) (now : ℕ) (cfg : SelectionConfig)
    → let r = decide floats active ranked st now cfg in
      Answers floats active ranked (expire st now) now cfg (tags_used active r.0) [] 0 active r.0
      × All (Streak floats active ranked st cfg) r.1.better
unfolding decide
decide-Answers floats active ranked st now cfg =
    let st' = expire st now in
    let t = initial ranked active in
    let settled = settle ranked st' now t 0 active in
    let final = (improve ranked st' now floats cfg settled.1 [] active settled.0).0 in
    let used = tags_used active final in
    let (answers, in_use) =
      settle-Answers floats active ranked st' now cfg used [] t 0 active
        (Known-initial floats active ranked st' now cfg used) in
    (
      improve-Answers floats active ranked st' now cfg used [] settled.1 [] 0 active settled.0
          in_use (Used-settled floats active ranked st' now cfg)
          (λ s m. ground (arith, m, contains-append (map tag_of active) (taken_tags final) s))
          answers,
      improve-Streaks floats active ranked st cfg now settled.1 [] active settled.0 (λ a m. m) tt,
    )

-- Dropping the expired quarantines changes no answer of Quarantined.
pub quarantined-expire :
    {F : Type 0} (st : State) (c : Candidate F) (now : ℕ)
    → Distinct (keys st.quarantine)
    → quarantined (expire st now) c now ≡ quarantined st c now
unfolding quarantined expire
quarantined-expire st c now h =
    rw (lookup-keep_entries (λ until. ltb now until) (pair c) st.quarantine h)
      (still (lookup (pair c) st.quarantine))
  where
    still : (o : Option ℕ) → in_force now (keep_value (λ until. ltb now until) o) ≡ in_force now o
    still o = ground arith
