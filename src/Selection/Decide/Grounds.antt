-- ===== src/Selection/Decide/Grounds.antt =====
-- internal/scd/selection/decide.go: the ground that each action of Decide has.
use scd.Prelude.{
  ◌++◌, not, ◌&&◌, ◌==◌, nat_eq, Bool, some, none, select, find_first, if◌then◌else◌, ℕ, suc, ◌≤◌,
  ◌≡◌, String, true, false, ◌⊎◌, ◌||◌, All, List, [], ◌∷◌, map, string_eq, contains, Among, lookup,
}
use scd.Selection.{Candidate, Floats}
use scd.Selection.Quarantine.{State, pair_eq, pair, quarantined}
use scd.Selection.Decide.{
  Action, ActionKind, keep, replace, remove, Slot, SelectionConfig, tag_of, current, is_by_label,
  beats, count_of, series,
}

-- The candidate of an action of the first loop, for a slot whose own one has gone.
abbrev pub takes : ActionKind → String → Bool
takes replace reason = not (reason == "better")
takes keep reason = false
takes remove reason = false

abbrev pub note_taken : {F : Type 0} → Action F → List (Candidate F) → List (Candidate F)
note_taken action taken = if takes action.kind action.reason then action.to ∷ taken else taken

abbrev pub is_replace : ActionKind → Bool
is_replace replace = true
is_replace keep = false
is_replace remove = false

-- The tags of the active slots, and of the candidates that the actions take.
abbrev pub tags_used : {F : Type 0} → List (Slot F) → List (Action F) → List String
tags_used active actions =
    map tag_of active ++ map (λ x. x.to.tag) (select (λ x. is_replace x.kind) actions)

module _ {F : Type 0} (ranked : List (Candidate F)) where
  abbrev pub in_file : Slot F → Bool
  in_file a = contains (map (λ c. c.tag) ranked) (tag_of a)

  -- The reason of a slot that loses its candidate: its pair is still in the file, or not.
  abbrev pub lost_reason : Slot F → String
  lost_reason a = if contains (map pair ranked) (pair a.candidate) then "changed" else "gone"

module _ {F : Type 0} (active : List (Slot F)) (ranked : List (Candidate F)) (st : State)
    (now : ℕ) where
  -- What Replacement may take when the slots before took those: no tag of an active slot or of one
  -- taken, no key of a slot whose candidate is still there or of one taken, no pair in quarantine.
  abbrev pub is_free : List (Candidate F) → Candidate F → Bool
  is_free taken c =
      not (contains (map (λ d. d.tag) taken ++ map tag_of active) c.tag)
      && (not (
            contains
              (map (λ d. d.key) taken
                ++ map (λ a. a.candidate.key) (select (in_file ranked) active))
              c.key)
          && not (quarantined st c now))

module _ {F : Type 0} (floats : Floats F) (active : List (Slot F)) (ranked : List (Candidate F))
    (st : State) (now : ℕ) (cfg : SelectionConfig) (used : List String) where
  -- A candidate with a transport is the first of its key's lines in the file but for those of a tag
  -- in use, of another transport of the slot's key, or in quarantine.
  abbrev pub FirstLineOf : Slot F → Candidate F → Type 0
  FirstLineOf a c =
      ((c.transport == "") ≡ true)
      ⊎ ((earlier : List (Candidate F)) × ((later : List (Candidate F)) × ((ranked
                ≡ earlier ++ c ∷ later)
              × All
                  (λ d.
                    (not (d.key == c.key)
                      || (contains used d.tag
                          || ((d.key == (current ranked a).key
                                && not (d.transport == (current ranked a).transport))
                              || quarantined st d now)))
                    ≡ true)
                  earlier)))

  -- Why a slot gets the candidate of the action: its own has gone, and this is the first free one, or
  -- this one has been better often enough.
  abbrev pub WhyReplaced : List (Candidate F) → Slot F → Action F → Type 0
  WhyReplaced taken a action =
      ((in_file ranked a ≡ false)
        × (action.reason ≡ lost_reason ranked a)
        × (find_first (is_free active ranked st now taken) ranked ≡ some action.to))
      ⊎ ((in_file ranked a ≡ true)
          × (a.healthy ≡ true)
          × (is_by_label cfg.strategy ≡ false)
          × (action.reason ≡ "better")
          × ((action.to.key == (current ranked a).key
                && not (action.to.transport == (current ranked a).transport))
              ≡ false)
          × FirstLineOf a action.to
          × (beats floats action.to (current ranked a) cfg ≡ true)
          × (cfg.switch_confirm_checks
              ≤ suc (count_of (lookup (series (current ranked a) action.to) st.better))))

  abbrev pub Grounded : List (Candidate F) → ActionKind → Slot F → Action F → Type 0
  Grounded taken keep a action = in_file ranked a ≡ true
  Grounded taken remove a action =
      (in_file ranked a ≡ false)
      × (action.reason ≡ lost_reason ranked a)
      × (find_first (is_free active ranked st now taken) ranked ≡ none)
  Grounded taken replace a action =
      Among action.to ranked
      × (contains (map tag_of active) action.to.tag ≡ false)
      × (quarantined st action.to now ≡ false)
      × WhyReplaced taken a action

  -- The actions are one for each slot, in slot order, and each has its ground.
  abbrev pub Answers : List (Candidate F) → ℕ → List (Slot F) → List (Action F) → Type 0
  Answers taken i [] [] = Unit
  Answers taken i [] (action ∷ actions) = ⊥
  Answers taken i (a ∷ rest) [] = ⊥
  Answers taken i (a ∷ rest) (action ∷ actions) =
      (action.slot ≡ i)
      × Grounded taken action.kind a action
      × Answers (note_taken action taken) (suc i) rest actions
