-- ===== src/Selection/Decide/Settling.antt =====
-- internal/scd/selection/decide.go: the first loop of Decide has the grounds of its actions.
use scd.Prelude.{
  ◌++◌, not, ◌&&◌, nat_eq, some, none, select, find_first, find_first-some, contains-append, ap,
  ◌∙◌, sym, Bool-cases, ℕ, suc, ◌≡◌, refl, String, true, false, inl, inr, List, [], ◌∷◌, map, arith,
  string_eq, contains, Option,
}
use scd.Selection.{Candidate, Floats}
use scd.Selection.Quarantine.{State, pair_eq, pair, may_take, replacement, quarantined}
use scd.Selection.Decide.{
  replace, Slot, Taken, SelectionConfig, tag_of, settle, settle_slot, settle_gone, initial, present,
  gone_reason,
}
use scd.Selection.Decide.Grounds.{takes, note_taken, in_file, is_free, Grounded, Answers}

module _ {F : Type 0} (active : List (Slot F)) where
  -- The tags of all active slots are in use.
  abbrev pub AllInUse : Taken → Type 0
  AllInUse t = (s : String) → contains (map tag_of active) s ≡ true → contains t.in_use s ≡ true

module _ {F : Type 0} (floats : Floats F) (active : List (Slot F)) (ranked : List (Candidate F))
    (st : State) (now : ℕ) (cfg : SelectionConfig) (used : List String) where
  -- The state of the first loop, by what it took.
  pub record Known (taken : List (Candidate F)) (t : Taken) : Type 0 where
    pub tags : t.in_use ≡ map (λ c. c.tag) taken ++ map tag_of active
    pub keys :
        t.keys
        ≡ map (λ c. c.key) taken ++ map (λ a. a.candidate.key) (select (in_file ranked) active)

  Known-AllInUse : (taken : List (Candidate F)) (t : Taken) → Known taken t → AllInUse active t
  Known-AllInUse taken t k s m =
      ap (λ l. contains l s) k.tags
      ∙ ground (arith, contains-append (map (λ c. c.tag) taken) (map tag_of active) s, m)

  free-may_take :
      (taken : List (Candidate F)) (t : Taken)
      → Known taken t
      → replacement ranked t.in_use t.keys st now
        ≡ find_first (is_free active ranked st now taken) ranked
  unfolding replacement may_take
  free-may_take taken t k =
      ap
        (λ l.
          find_first
            (λ c.
              not (contains l c.tag) && (not (contains t.keys c.key) && not (quarantined st c now)))
            ranked)
        k.tags
      ∙ ap
          (λ l.
            find_first
              (λ c.
                not (contains (map (λ d. d.tag) taken ++ map tag_of active) c.tag)
                && (not (contains l c.key) && not (quarantined st c now)))
              ranked)
          k.keys

  takes-lost : (a : Slot F) → takes replace (gone_reason ranked a.candidate) ≡ true
  unfolding gone_reason
  takes-lost a = elim (Bool-cases (contains (map pair ranked) (pair a.candidate))) [
    | inl y ↦ rw y refl
    | inr n ↦ rw n refl
  ]

  free_candidate :
      (taken : List (Candidate F)) (c : Candidate F)
      → is_free active ranked st now taken c ≡ true
      → (contains (map tag_of active) c.tag ≡ false) × (quarantined st c now ≡ false)
  free_candidate taken c h = (
    ground (arith, h, contains-append (map (λ d. d.tag) taken) (map tag_of active) c.tag),
    ground (arith, h),
  )

  gone-Grounded :
      (taken : List (Candidate F)) (t : Taken) (i : ℕ) (a : Slot F) (o : Option (Candidate F))
      → Known taken t
      → in_file ranked a ≡ false
      → find_first (is_free active ranked st now taken) ranked ≡ o
      → let r = settle_gone ranked st now t i a.candidate o in
        (r.0.slot ≡ i)
        × Grounded floats active ranked st now cfg used taken r.0.kind a r.0
        × Known (note_taken r.0 taken) r.1
  unfolding settle_gone gone_reason
  gone-Grounded taken t i a none k absent e = (refl, (absent, refl, e), k)
  gone-Grounded taken t i a (some c) k absent e =
      let (is, among) = find_first-some (is_free active ranked st now taken) ranked c e in
      let (tag, pair_free) = free_candidate taken c is in
      (
        refl,
        (among, tag, pair_free, inl (absent, refl, e)),
        rw (takes-lost a)
            (record { tags = ap (λ l. c.tag ∷ l) k.tags; keys = ap (λ l. c.key ∷ l) k.keys }),
      )

  settle_slot-Grounded :
      (taken : List (Candidate F)) (t : Taken) (i : ℕ) (a : Slot F)
      → Known taken t
      → let r = settle_slot ranked st now t i a in
        (r.0.slot ≡ i)
        × Grounded floats active ranked st now cfg used taken r.0.kind a r.0
        × Known (note_taken r.0 taken) r.1
  unfolding settle_slot present
  settle_slot-Grounded taken t i a k = elim (Bool-cases (in_file ranked a)) [
    | inl there ↦ rw there (refl, there, k)
    | inr absent ↦ rw absent (gone-Grounded taken t i a _ k absent (sym (free-may_take taken t k)))
  ]

  pub settle-Answers :
      (taken : List (Candidate F)) (t : Taken) (i : ℕ) (rest : List (Slot F))
      → Known taken t
      → Answers floats active ranked st now cfg used taken i rest (settle ranked st now t i rest).0
        × AllInUse active (settle ranked st now t i rest).1
  unfolding settle
  settle-Answers taken t i [] k = (tt, Known-AllInUse taken t k)
  settle-Answers taken t i (a ∷ rest) k =
      let r = settle_slot ranked st now t i a in
      let (s, g, k') = settle_slot-Grounded taken t i a k in
      let (rest', u) = settle-Answers (note_taken r.0 taken) r.1 (suc i) rest k' in
      ((s, g, rest'), u)

  pub Known-initial : Known [] (initial ranked active)
  unfolding present
  Known-initial = record { tags = refl; keys = refl }
