-- ===== src/Selection/Decide/Keys.antt =====
-- internal/scd/selection/decide.go: the keys that the slots have.
pub mod Settle
pub mod Improve
pub mod Final
use scd.Prelude.{
  ℕ, zero, suc, ◌≡◌, ◌≢◌, refl, sym, String, Bool, true, false, not, ◌||◌, Option, none, some, List,
  [], ◌∷◌, ◌++◌, map, arith, ◌==◌, nat_eq, string_eq, contains, without, Distinct, All, All-map,
  Bool-cases, Option-cases, inl, inr, ◌⊎◌, select, find_first, find_last, subst, ap, ◌∙◌,
  if◌then◌else◌,
}
use scd.Selection.{Candidate, Floats}
use scd.Selection.Quarantine.{State, replacement, may_take}
use scd.Selection.Decide.{
  Action, ActionKind, keep, replace, remove, Slot, Taken, SelectionConfig, tag_of, settle,
  settle_slot, improve, improve_slot, decide, expire, initial, current, present, is_keep, excluded,
}
use scd.Selection.Decide.KeySets.{
  Sub, OldIn, contains_head, contains_tail, contains_cases, kept_step, taken_step, switched_step,
  reused_step, held, Sub-without,
}
use scd.Selection.Decide.Slots.{Settled, settle_slot-Settled, Improved, improve_slot-Improved}

-- The keys in use after an action: the slot's own, the new candidate's, or none.
abbrev pub keys_after : ActionKind → ℕ → ℕ → List ℕ
keys_after keep own new = own ∷ []
keys_after replace own new = new ∷ []
keys_after remove own new = []

abbrev pub slot_keys : {F : Type 0} → Slot F → Action F → List ℕ
slot_keys a action = keys_after action.kind a.candidate.key action.to.key

abbrev pub final_keys : {F : Type 0} → List (Slot F) → List (Action F) → List ℕ
final_keys [] actions = []
final_keys (a ∷ rest) [] = []
final_keys (a ∷ rest) (action ∷ actions) = slot_keys a action ++ final_keys rest actions

-- The keys of the slots whose candidate is still in the file.
abbrev pub present_keys : {F : Type 0} → List (Candidate F) → List (Slot F) → List ℕ
present_keys ranked active =
    map (λ a. a.candidate.key) (select (λ a. present ranked (tag_of a)) active)

-- A slot that is kept has a candidate in the file, with the slot's key.
abbrev pub KeyKnown : {F : Type 0} → List (Candidate F) → Slot F → Type 0
KeyKnown ranked a = present ranked (tag_of a) ≡ true → (current ranked a).key ≡ a.candidate.key

abbrev pub KeepsKey : {F : Type 0} → List (Candidate F) → Slot F → Action F → Type 0
KeepsKey ranked a action = is_keep action.kind ≡ true → (current ranked a).key ≡ a.candidate.key

abbrev pub KeepsKeys : {F : Type 0} → List (Candidate F) → List (Slot F) → List (Action F) → Type 0
KeepsKeys ranked (a ∷ rest) (action ∷ actions) =
    KeepsKey ranked a action × KeepsKeys ranked rest actions
KeepsKeys ranked _ _ = Unit
