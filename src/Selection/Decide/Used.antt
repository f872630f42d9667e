-- ===== src/Selection/Decide/Used.antt =====
-- internal/scd/selection/decide.go: inUse holds the tags of the active slots and of the actions.
use scd.Prelude.{
  ◌||◌, not, ◌&&◌, ◌==◌, nat_eq, string_eq, ==→eq, ==_refl, length, ap, ◌∙◌, Bool, Bool-cases, ℕ,
  suc, ◌≡◌, refl, String, true, false, inl, inr, Option, some, none, List, [], ◌∷◌, map, select,
  arith, contains, All-map,
}
use scd.Selection.{Candidate, Floats}
use scd.Selection.Quarantine.{State, quarantined}
use scd.Selection.Decide.{
  Action, ActionKind, keep, replace, remove, Slot, Taken, SelectionConfig, tag_of, settle,
  settle_slot, settle_gone, improve, improve_slot, current, present, excluded, is_keep,
}
use scd.Selection.Decide.Slots.{FirstLine}
use scd.Selection.Decide.Grounds.{is_replace, FirstLineOf}

-- The tags that the actions take.
abbrev pub taken_tags : {F : Type 0} → List (Action F) → List String
taken_tags actions = map (λ x. x.to.tag) (select (λ x. is_replace x.kind) actions)

or_false : (b : Bool) → b ≡ (b || false)
or_false true = refl
or_false false = refl

kept_not_replace : (kind : ActionKind) → is_keep kind ≡ true → is_replace kind ≡ false
unfolding is_keep
kept_not_replace keep e = refl
kept_not_replace replace e = cc
kept_not_replace remove e = cc

module _ {F : Type 0} where
  taken_cases :
      (action : Action F) (actions : List (Action F)) (s : String)
      → contains (taken_tags (action ∷ actions)) s
        ≡ ((is_replace action.kind && s == action.to.tag) || contains (taken_tags actions) s)
  unfolding select contains
  taken_cases action actions s = elim (Bool-cases (is_replace action.kind)) [
    | inl y ↦ rw y refl
    | inr n ↦ rw n refl
  ]

  pub taken_head :
      (action : Action F) (actions : List (Action F))
      → is_replace action.kind ≡ true
      → contains (taken_tags (action ∷ actions)) action.to.tag ≡ true
  taken_head action actions h =
      ground (arith, h, taken_cases action actions action.to.tag, ==_refl action.to.tag)

  pub taken_tail :
      (action : Action F) (actions : List (Action F)) (s : String)
      → contains (taken_tags actions) s ≡ true
      → contains (taken_tags (action ∷ actions)) s ≡ true
  taken_tail action actions s h = ground (arith, h, taken_cases action actions s)

module _ {F : Type 0} (ranked : List (Candidate F)) (st : State) (now : ℕ) where
  settle_gone-tags :
      (t : Taken) (i : ℕ) (a : Slot F) (o : Option (Candidate F)) (s : String)
      → let r = settle_gone ranked st now t i a.candidate o in
        contains r.1.in_use s ≡ ((is_replace r.0.kind && s == r.0.to.tag) || contains t.in_use s)
  unfolding settle_gone contains
  settle_gone-tags t i a (some c) s = refl
  settle_gone-tags t i a none s = refl

  settle_slot-tags :
      (t : Taken) (i : ℕ) (a : Slot F) (s : String)
      → let r = settle_slot ranked st now t i a in
        contains r.1.in_use s ≡ ((is_replace r.0.kind && s == r.0.to.tag) || contains t.in_use s)
  unfolding settle_slot
  settle_slot-tags t i a s = elim (Bool-cases (present ranked (tag_of a))) [
    | inl there ↦ rw there refl
    | inr absent ↦ rw absent (settle_gone-tags t i a _ s)
  ]

  pub settle-tags :
      (t : Taken) (i : ℕ) (rest : List (Slot F)) (s : String)
      → let r = settle ranked st now t i rest in
        contains r.1.in_use s ≡ (contains t.in_use s || contains (taken_tags r.0) s)
  unfolding settle select contains
  settle-tags t i [] s = or_false (contains t.in_use s)
  settle-tags t i (a ∷ rest) s =
      let r = settle_slot ranked st now t i a in
      let rest' = settle ranked st now r.1 (suc i) rest in
      ground
        (arith, settle-tags r.1 (suc i) rest s, settle_slot-tags t i a s, taken_cases r.0 rest'.0 s)

  pub length-settle :
      (t : Taken) (i : ℕ) (rest : List (Slot F))
      → length rest ≡ length (settle ranked st now t i rest).0
  unfolding settle
  length-settle t i [] = refl
  length-settle t i (a ∷ rest) =
      ap suc (length-settle (settle_slot ranked st now t i a).1 (suc i) rest)

module _ {F : Type 0} (floats : Floats F) (ranked : List (Candidate F)) (st : State) (now : ℕ)
    (cfg : SelectionConfig) where
  -- A round of the second loop leaves an action that takes something as it is.
  improve_slot-taken :
      (t : Taken) (better : List (String × ℕ)) (a : Slot F) (action : Action F)
      → is_replace action.kind ≡ true
      → (improve_slot ranked st now floats cfg t better a action).0 ≡ action
  unfolding improve_slot is_keep
  improve_slot-taken t better a action h = elim (Bool-cases (is_keep action.kind)) [
    | inr other ↦ rw other refl
    | inl k ↦ cc (kept_not_replace action.kind k, h)
  ]

  pub improve-taken :
      (t : Taken) (better : List (String × ℕ)) (rest : List (Slot F)) (actions : List (Action F))
      (s : String)
      → length rest ≡ length actions
      → contains (taken_tags actions) s ≡ true
      → contains (taken_tags (improve ranked st now floats cfg t better rest actions).0) s ≡ true
  unfolding improve
  improve-taken t better [] [] s e h = h
  improve-taken t better [] (action ∷ actions) s e h =
      let impossible : ⊥ = omega arith in absurd impossible
  improve-taken t better (a ∷ rest) [] s e h = h
  improve-taken t better (a ∷ rest) (action ∷ actions) s e h =
      let r = improve_slot ranked st now floats cfg t better a action in
      let len : length rest ≡ length actions = omega arith in
      let behind = improve-taken r.1 r.2 rest actions s in
      let final = (improve ranked st now floats cfg r.1 r.2 rest actions).0 in
      elim (Bool-cases (is_replace action.kind)) [
        | inl y ↦
            let same = improve_slot-taken t better a action y in
            ground (
              arith,
              h,
              behind len,
              taken_cases action actions s,
              ap (λ x. contains (taken_tags (x ∷ final)) s) same ∙ taken_cases action final s,
            )
        | inr n ↦
            ground (arith, h, n, behind len, taken_cases action actions s, taken_cases r.0 final s)
      ]

  allowed_line :
      (used : List String) (t : Taken) (a : Slot F) (c d : Candidate F)
      → ((s : String) → contains t.in_use s ≡ true → contains used s ≡ true)
      → excluded st now t (current ranked a) c ≡ false
      → (d.key == c.key && not (excluded st now t (current ranked a) d)) ≡ false
      → (not (d.key == c.key)
          || (contains used d.tag
              || ((d.key == (current ranked a).key
                    && not (d.transport == (current ranked a).transport))
                  || quarantined st d now)))
        ≡ true
  unfolding excluded
  allowed_line used t a c d sub allowed h = elim (Bool-cases (d.key == c.key)) [
    | inr n ↦ ground (arith, n)
    | inl y ↦
        let keys = ap (contains t.keys) (==→eq d.key c.key y) in
        ground (arith, y, h, allowed, keys, sub d.tag)
  ]

  pub FirstLine-FirstLineOf :
      (used : List String) (active : List (Slot F)) (t : Taken) (a : Slot F) (c : Candidate F)
      → ((s : String) → contains t.in_use s ≡ true → contains used s ≡ true)
      → excluded st now t (current ranked a) c ≡ false
      → FirstLine ranked st now floats cfg t (current ranked a) c
      → FirstLineOf floats active ranked st now cfg used a c
  FirstLine-FirstLineOf used active t a c sub allowed (inl none_set) = inl none_set
  FirstLine-FirstLineOf used active t a c sub allowed (inr (earlier, (later, (e, all)))) =
      inr (
        earlier,
        (later, (e, All-map (λ d h. allowed_line used t a c d sub allowed h) earlier all)),
      )
