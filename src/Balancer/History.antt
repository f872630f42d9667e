-- ===== src/Balancer/History.antt =====
-- internal/scd/balancer/tick.go: what the record of a balancer says of the polls so far.
use scd.Prelude.{
  ℕ, suc, String, Bool, not, ◌&&◌, ◌||◌, Option, none, some, List, [], ◌∷◌, ◌≡◌, refl, ap, ◌∙◌,
  ◌==◌, string_eq, if◌then◌else◌, is_empty, arith,
}
use scd.Memory.Balancers.{
  Polled, unpolled, polled_ok, polled_error, Mode, no_mode, Selection, no_selection,
}
use scd.Balancer.{Info, resolve_selection}
use scd.Balancer.Tick.{
  Answer, answered, failed, moved, is_unpolled, record_poll, record_failure, record_success,
}

-- A poll with its time; a history has the newest poll first.
abbrev pub Poll : Type 0
Poll = ℕ × Answer Info

unfoldable pub recorded : String → List Poll → Selection
unfolding record_poll
recorded tag [] = no_selection
recorded tag ((now, a) ∷ h) = (record_poll (recorded tag h) tag now a).0

-- The failures since the last answer.
abbrev pub failures_in_row : List Poll → ℕ
failures_in_row [] = 0
failures_in_row ((now, failed e) ∷ h) = suc (failures_in_row h)
failures_in_row ((now, answered info) ∷ h) = 0

abbrev pub last_answer : List Poll → Option Info
last_answer [] = none
last_answer ((now, failed e) ∷ h) = last_answer h
last_answer ((now, answered info) ∷ h) = some info

abbrev pub selected_by : Option Info → String
selected_by none = ""
selected_by (some info) = (resolve_selection info).1

abbrev pub mode_by : Option Info → Mode
mode_by none = no_mode
mode_by (some info) = (resolve_selection info).0

abbrev pub targets_by : Option Info → List String
targets_by none = []
targets_by (some info) = info.principle_targets

-- When the selected tag last changed, by the answers alone: the first poll changes it, or an answer
-- with another tag, where there is no tag before the first answer.
abbrev pub changed_at : List Poll → Option ℕ
changed_at [] = none
changed_at ((now, failed e) ∷ h) = changed_at h
changed_at ((now, answered info) ∷ h) =
    if selected_by (some info) == selected_by (last_answer h) && not (is_empty h)
    then changed_at h
    else some now

abbrev pub state_by : List Poll → Polled
state_by [] = unpolled
state_by ((now, failed e) ∷ h) = polled_error
state_by ((now, answered info) ∷ h) = polled_ok

pub record Matches (h : List Poll) (s : Selection) : Type 0 where
  pub state : s.state ≡ state_by h
  pub failures : s.consecutive_failures ≡ failures_in_row h
  pub selected : s.selected_tag ≡ selected_by (last_answer h)
  pub mode : s.mode ≡ mode_by (last_answer h)
  pub targets : s.principle_targets ≡ targets_by (last_answer h)
  pub since : s.selected_since ≡ changed_at h

is_unpolled_by : (h : List Poll) → is_unpolled (state_by h) ≡ is_empty h
is_unpolled_by [] = refl
is_unpolled_by ((now, failed e) ∷ h) = refl
is_unpolled_by ((now, answered info) ∷ h) = refl

either_way :
    (a b : Bool) (x y : Option ℕ) → (if a || not b then x else y) ≡ (if b && not a then y else x)
either_way a b x y = ground arith

moved_since :
    (s : Selection) (h : List Poll)
    → Matches h s
    → (tag : String) (now : ℕ)
    → (if moved s tag then some now else s.selected_since)
      ≡ (if tag == selected_by (last_answer h) && not (is_empty h) then changed_at h else some now)
moved_since s h m tag now =
    either_way (is_unpolled s.state) (tag == s.selected_tag) (some now) s.selected_since ∙ (λ i.
      if tag == m.selected i && not ((ap is_unpolled m.state ∙ is_unpolled_by h) i)
      then m.since i
      else some now)

-- The selection of a balancer after any polls. Its state is that of the newest poll, its failures are
-- those since the last answer, a failure keeps the mode, the tag and the targets of the last answer,
-- and selectedSince is the time of the last change of the tag, as the answers alone tell it.
pub recorded-Matches : (tag : String) (h : List Poll) → Matches h (recorded tag h)
unfolding recorded
recorded-Matches tag [] = record {
  state = refl;
  failures = refl;
  selected = refl;
  mode = refl;
  targets = refl;
  since = refl;
}
recorded-Matches tag ((now, failed e) ∷ h) =
    let m = recorded-Matches tag h in
    unfold record_failure in
    record {
      state = refl;
      failures = ap suc m.failures;
      selected = m.selected;
      mode = m.mode;
      targets = m.targets;
      since = m.since;
    }
recorded-Matches tag ((now, answered info) ∷ h) =
    let m = recorded-Matches tag h in
    unfold record_success in
    record {
      state = refl;
      failures = refl;
      selected = refl;
      mode = refl;
      targets = refl;
      since = moved_since (recorded tag h) h m (resolve_selection info).1 now;
    }
