-- ===== src/Selection/Decide/Keys/Improve.antt =====
-- internal/scd/selection/decide.go: the keys in the second loop of Decide.
use scd.Prelude.{
  ℕ, ◌≡◌, sym, String, true, false, List, [], ◌∷◌, ◌++◌, arith, nat_eq, string_eq, contains,
  Distinct, subst, ap, ◌∙◌,
}
use scd.Selection.{Candidate, Floats}
use scd.Selection.Quarantine.{State}
use scd.Selection.Decide.{
  Action, ActionKind, keep, replace, remove, Slot, Taken, SelectionConfig, improve, improve_slot,
  current, is_keep, excluded,
}
use scd.Selection.Decide.KeySets.{
  Sub, OldIn, contains_head, contains_tail, kept_step, switched_step, reused_step, held,
  Sub-without,
}
use scd.Selection.Decide.Slots.{Improved, improve_slot-Improved}
use scd.Selection.Decide.Keys.{keys_after, slot_keys, final_keys, KeepsKey, KeepsKeys}

module _ {F : Type 0} (ranked : List (Candidate F)) (st : State) (now : ℕ) where
  -- What the second loop promises of the rest of the slots, whose actions were `actions`.
  pub record Improves (t : Taken) (rest : List (Slot F)) (actions : List (Action F))
      (r : List (Action F)) : Type 0 where
    pub distinct : Distinct (final_keys rest r)
    pub old : OldIn t.keys (final_keys rest r) (final_keys rest actions)

  keep_keys :
      (a : Slot F) (action : Action F)
      → is_keep action.kind ≡ true
      → slot_keys a action ≡ (a.candidate.key ∷ [])
  unfolding is_keep
  keep_keys a action h = ground arith

  own_key :
      (a : Slot F) (action : Action F)
      → KeepsKey ranked a action
      → is_keep action.kind ≡ true
      → slot_keys a action ≡ ((current ranked a).key ∷ [])
  own_key a action key k = keep_keys a action k ∙ ap (λ j. j ∷ []) (sym (key k))

  excluded_key :
      (t : Taken) (cur c : Candidate F)
      → excluded st now t cur c ≡ false
      → contains t.keys c.key ≡ false
  unfolding excluded
  excluded_key t cur c h = ground arith

  as_is_step :
      (kind : ActionKind) (own new : ℕ) (before fin later : List ℕ)
      → Distinct fin
      → OldIn before fin later
      → Distinct (keys_after kind own new ++ later)
      → Sub (keys_after kind own new ++ later) before
      → Distinct (keys_after kind own new ++ fin)
        × OldIn before (keys_after kind own new ++ fin) (keys_after kind own new ++ later)
  as_is_step keep own new before fin later d old dl sub =
      kept_step own before fin later d old (sub own (contains_head own later)) dl.0
  as_is_step replace own new before fin later d old dl sub =
      kept_step new before fin later d old (sub new (contains_head new later)) dl.0
  as_is_step remove own new before fin later d old dl sub = (d, old)

  later_of :
      (kind : ActionKind) (own new : ℕ) (later : List ℕ)
      → Distinct (keys_after kind own new ++ later)
      → Distinct later × Sub later (keys_after kind own new ++ later)
  later_of keep own new later d = (d.1, λ j m. contains_tail own j later m)
  later_of replace own new later d = (d.1, λ j m. contains_tail new j later m)
  later_of remove own new later d = (d, λ j m. m)

  module _ (floats : Floats F) (cfg : SelectionConfig) where
    improve_step :
        (t : Taken) (a : Slot F) (action : Action F) (rest : List (Slot F))
        (actions : List (Action F)) (r : Action F × Taken × List (String × ℕ))
        (r' : List (Action F))
        → Improved ranked st now floats cfg t a action r
        → KeepsKey ranked a action
        → (Distinct (final_keys rest actions)
            → Sub (final_keys rest actions) r.1.keys
            → Improves r.1 rest actions r')
        → Distinct (final_keys (a ∷ rest) (action ∷ actions))
        → Sub (final_keys (a ∷ rest) (action ∷ actions)) t.keys
        → Improves t (a ∷ rest) (action ∷ actions) (r.0 ∷ r')
    improve_step t a action rest actions r r' Improved.as_is key ih d sub =
        let (d', sub') =
          later_of action.kind a.candidate.key action.to.key (final_keys rest actions) d in
        let later = ih d' (λ j m. sub j (sub' j m)) in
        let (d'', old) =
          as_is_step action.kind a.candidate.key action.to.key t.keys _ _ later.distinct later.old d
            sub in
        record { distinct = d''; old = old }
    improve_step t a action rest actions r r' (Improved.stays k) key ih d sub =
        let later = final_keys rest actions in
        let k0 = (current ranked a).key in
        let e = own_key a action key k in
        let d' : Distinct (k0 ∷ later) = subst (λ l. Distinct (l ++ later)) e d in
        let sub' : Sub (k0 ∷ later) t.keys = subst (λ l. Sub (l ++ later) t.keys) e sub in
        let rest' = ih d'.1 (λ j m. held k0 t.keys j (sub' j (contains_tail k0 j later m))) in
        let (d'', old) =
          kept_step k0 t.keys _ later rest'.distinct (reused_step k0 t.keys _ later rest'.old)
            (sub' k0 (contains_head k0 later)) d'.0 in
        record {
          distinct = subst (λ l. Distinct (l ++ final_keys rest r')) (sym e) d'';
          old = subst (λ l. OldIn t.keys (l ++ final_keys rest r') (l ++ later)) (sym e) old;
        }
    improve_step t a action rest actions r r' (Improved.switches c k h s sw) key ih d sub =
        let later = final_keys rest actions in
        let k0 = (current ranked a).key in
        let e = own_key a action key k in
        let d' : Distinct (k0 ∷ later) = subst (λ l. Distinct (l ++ later)) e d in
        let sub' : Sub (k0 ∷ later) t.keys = subst (λ l. Sub (l ++ later) t.keys) e sub in
        let sub'' : Sub later t.keys = λ j m. sub' j (contains_tail k0 j later m) in
        let apart = Sub-without k0 t.keys later sub'' d'.0 in
        let rest' = ih d'.1 (λ j m. contains_tail c.key j _ (apart j m)) in
        let (d'', old) =
          switched_step k0 c.key t.keys _ later rest'.distinct rest'.old
            (excluded_key _ (current ranked a) c sw.allowed) sub'' d'.0 in
        record {
          distinct = d'';
          old = subst (λ l. OldIn t.keys (c.key ∷ final_keys rest r') (l ++ later)) (sym e) old;
        }

    pub improve_keys :
        (t : Taken) (better : List (String × ℕ)) (rest : List (Slot F)) (actions : List (Action F))
        → KeepsKeys ranked rest actions
        → Distinct (final_keys rest actions)
        → Sub (final_keys rest actions) t.keys
        → Improves t rest actions (improve ranked st now floats cfg t better rest actions).0
    unfolding improve
    improve_keys t better [] actions key d sub = record {
      distinct = tt;
      old = λ k m b. absurd (unfold contains in cc);
    }
    improve_keys t better (a ∷ rest) [] key d sub = record {
      distinct = tt;
      old = λ k m b. absurd (unfold contains in cc);
    }
    improve_keys t better (a ∷ rest) (action ∷ actions) key d sub =
        let r = improve_slot ranked st now floats cfg t better a action in
        improve_step t a action rest actions r
          (improve ranked st now floats cfg r.1 r.2 rest actions).0
          (improve_slot-Improved ranked st now floats cfg t better a action) key.0
          (improve_keys r.1 r.2 rest actions key.1) d sub
