-- ===== src/Selection/Decide/Keys/Settle.antt =====
-- internal/scd/selection/decide.go: the keys in the first loop of Decide.
use scd.Prelude.{
  ℕ, suc, ◌≡◌, sym, true, false, List, [], ◌∷◌, arith, nat_eq, string_eq, contains, Distinct, All,
  inl, inr, select, subst,
}
use scd.Selection.{Candidate}
use scd.Selection.Quarantine.{State, may_take}
use scd.Selection.Decide.{Action, Slot, Taken, tag_of, settle, settle_slot, present, is_keep}
use scd.Selection.Decide.KeySets.{
  Sub, OldIn, contains_head, contains_tail, contains_cases, kept_step, taken_step,
}
use scd.Selection.Decide.Slots.{Settled, settle_slot-Settled}
use scd.Selection.Decide.Keys.{final_keys, present_keys, KeyKnown, KeepsKey, KeepsKeys}

module _ {F : Type 0} (ranked : List (Candidate F)) (st : State) (now : ℕ) where
  present_cons :
      (a : Slot F) (rest : List (Slot F))
      → present ranked (tag_of a) ≡ true
      → present_keys ranked (a ∷ rest) ≡ a.candidate.key ∷ present_keys ranked rest
  unfolding select
  present_cons a rest h = rw h

  present_skip :
      (a : Slot F) (rest : List (Slot F))
      → present ranked (tag_of a) ≡ false
      → present_keys ranked (a ∷ rest) ≡ present_keys ranked rest
  unfolding select
  present_skip a rest h = rw h

  -- What the first loop promises of the rest of the slots.
  pub record Settles (t : Taken) (rest : List (Slot F)) (r : List (Action F) × Taken) : Type 0 where
    pub distinct : Distinct (final_keys rest r.0)
    pub old : OldIn t.keys (final_keys rest r.0) (present_keys ranked rest)
    pub used : Sub (final_keys rest r.0) r.1.keys
    pub grows : Sub t.keys r.1.keys

  settle_step :
      (t : Taken) (i : ℕ) (a : Slot F) (rest : List (Slot F)) (r : Action F × Taken)
      (r' : List (Action F) × Taken)
      → Settled ranked st now t i a r
      → (Distinct (present_keys ranked rest)
          → Sub (present_keys ranked rest) r.1.keys
          → Settles r.1 rest r')
      → Distinct (present_keys ranked (a ∷ rest))
      → Sub (present_keys ranked (a ∷ rest)) t.keys
      → Settles t (a ∷ rest) (r.0 ∷ r'.0, r'.1)
  settle_step t i a rest r r' (Settled.kept p) s d sub =
      let k = a.candidate.key in
      let d' : Distinct (k ∷ present_keys ranked rest) = subst Distinct (present_cons a rest p) d in
      let sub' : Sub (k ∷ present_keys ranked rest) t.keys =
        subst (λ l. Sub l t.keys) (present_cons a rest p) sub in
      let ih : Settles t rest r' = s d'.1 (λ j m. sub' j (contains_tail k j _ m)) in
      let used = sub' k (contains_head k _) in
      let (d'', old) = kept_step k t.keys _ _ ih.distinct ih.old used d'.0 in
      record {
        distinct = d'';
        old = subst (OldIn t.keys (k ∷ final_keys rest r'.0)) (sym (present_cons a rest p)) old;
        used = λ j m. elim (contains_cases k j _ m) [
          | inl e ↦ ih.grows j (subst (λ n. contains t.keys n ≡ true) (sym e) used)
          | inr m' ↦ ih.used j m'
        ];
        grows = ih.grows;
      }
  settle_step t i a rest r r' (Settled.taken c p may among) s d sub =
      let own = present_skip a rest p in
      let sub' : Sub (present_keys ranked rest) t.keys = subst (λ l. Sub l t.keys) own sub in
      let ih = s (subst Distinct own d) (λ j m. contains_tail c.key j t.keys (sub' j m)) in
      let (d'', old) =
        taken_step c.key t.keys _ _ ih.distinct ih.old (unfold may_take in ground arith) sub' in
      record {
        distinct = d'';
        old = subst (OldIn t.keys (c.key ∷ final_keys rest r'.0)) (sym own) old;
        used = λ j m. elim (contains_cases c.key j _ m) [
          | inl e ↦
              ih.grows j (
                subst (λ n. contains (c.key ∷ t.keys) n ≡ true) (sym e)
                  (contains_head c.key t.keys))
          | inr m' ↦ ih.used j m'
        ];
        grows = λ j b. ih.grows j (contains_tail c.key j t.keys b);
      }
  settle_step t i a rest r r' (Settled.removed p _) s d sub =
      let own = present_skip a rest p in
      let ih = s (subst Distinct own d) (subst (λ l. Sub l t.keys) own sub) in
      record {
        distinct = ih.distinct;
        old = subst (OldIn t.keys (final_keys rest r'.0)) (sym own) ih.old;
        used = ih.used;
        grows = ih.grows;
      }

  pub settle_keys :
      (t : Taken) (i : ℕ) (rest : List (Slot F))
      → Distinct (present_keys ranked rest)
      → Sub (present_keys ranked rest) t.keys
      → Settles t rest (settle ranked st now t i rest)
  unfolding settle
  settle_keys t i [] d sub = record {
    distinct = tt;
    old = λ k m b. absurd (unfold contains in cc);
    used = λ k m. absurd (unfold contains in cc);
    grows = λ k b. b;
  }
  settle_keys t i (a ∷ rest) d sub =
      let r = settle_slot ranked st now t i a in
      settle_step t i a rest r (settle ranked st now r.1 (suc i) rest)
        (settle_slot-Settled ranked st now t i a) (settle_keys r.1 (suc i) rest) d sub

  Settled-KeepsKey :
      (t : Taken) (i : ℕ) (a : Slot F) (r : Action F × Taken)
      → Settled ranked st now t i a r
      → KeyKnown ranked a
      → KeepsKey ranked a r.0
  unfolding is_keep
  Settled-KeepsKey t i a r (Settled.kept p) known k = known p
  Settled-KeepsKey t i a r (Settled.taken c p may among) known k = cc
  Settled-KeepsKey t i a r (Settled.removed p _) known k = cc

  pub settle-KeepsKeys :
      (t : Taken) (i : ℕ) (rest : List (Slot F))
      → All (KeyKnown ranked) rest
      → KeepsKeys ranked rest (settle ranked st now t i rest).0
  unfolding settle
  settle-KeepsKeys t i [] known = tt
  settle-KeepsKeys t i (a ∷ rest) known =
      let r = settle_slot ranked st now t i a in
      (
        Settled-KeepsKey t i a r (settle_slot-Settled ranked st now t i a) known.0,
        settle-KeepsKeys r.1 (suc i) rest known.1,
      )
