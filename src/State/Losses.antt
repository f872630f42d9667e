-- ===== src/State/Losses.antt =====
-- internal/scd/state/xray.go: SetStateLost and ClearStateLost over a sequence of events.
use scd.Prelude.{
  ℕ, ◌≤◌, ◌≡◌, refl, sym, subst, String, true, false, not, Option, none, some, List, [], ◌∷◌,
  string_eq, ◌==◌, lookup, insert, is_empty, ltb, All, All-map, All-insert, All-remove_key, arith,
  Bool-cases, inl, inr, if◌then◌else◌,
}
use scd.State.{
  Issues, set_state_lost, set_marked, mark, lost_since, clear_state_lost, clear_marked, unmark,
}

is_empty-insert : (k : String) (v : ℕ) (m : List (String × ℕ)) → is_empty (insert k v m) ≡ false
unfolding insert
is_empty-insert k v [] = refl
is_empty-insert k v ((j, x) ∷ m) = elim (Bool-cases (j == k)) [
  | inl y ↦ rw y refl
  | inr n ↦ rw n refl
]

-- The states that SetStateLost and ClearStateLost reach, with the time of the last event. Time does
-- not run backwards, and the apply that clears a mark started before it ends.
pub data Reaches : ℕ → Issues → Type 0 where
  start : {t : Issues} → t.state_lost ≡ [] → t.state_lost_logged ≡ false → Reaches 0 t
  sets :
      {n : ℕ} {t : Issues} (source : String) (now : ℕ)
      → n ≤ now
      → Reaches n t
      → Reaches now (set_state_lost t source now).0
  clears :
      {n : ℕ} {t : Issues} (source : String) (before now : ℕ)
      → n ≤ now
      → Reaches n t
      → Reaches now (clear_state_lost t source before now).0

-- A loss is logged only while a source is marked, and no mark is older than the episode or newer than
-- the last event.
pub record Lost (n : ℕ) (t : Issues) : Type 0 where
  pub marks : All (λ e. (t.state_lost_since ≤ e.1) × (e.1 ≤ n)) t.state_lost
  pub logged : t.state_lost_logged ≡ true → is_empty t.state_lost ≡ false

later : {n : ℕ} {t : Issues} (now : ℕ) → n ≤ now → Lost n t → Lost now t
later {t = t} now le i = record {
  marks = All-map (λ e h. (h.0, omega (arith, h.1, le))) t.state_lost i.marks;
  logged = i.logged;
}

-- The start of the episode, for a list of marks.
since_bounds :
    (xs : List (String × ℕ)) (since now n : ℕ)
    → n ≤ now
    → All (λ e. (since ≤ e.1) × (e.1 ≤ n)) xs
    → let s = if is_empty xs then now else since in
      All (λ e. (s ≤ e.1) × (e.1 ≤ now)) xs × (s ≤ now)
since_bounds [] since now n le h = (tt, omega arith)
since_bounds (x ∷ xs) since now n le h =
    (All-map (λ e k. (k.0, omega (arith, k.1, le))) (x ∷ xs) h, omega (arith, h.0.0, h.0.1, le))

mark-Lost :
    {n : ℕ} {t : Issues} (source : String) (now : ℕ)
    → n ≤ now
    → Lost n t
    → Lost now (mark t source now)
unfolding mark lost_since
mark-Lost {n} {t} source now le i =
    let (old, le') = since_bounds t.state_lost t.state_lost_since now n le i.marks in
    record {
      marks =
          All-insert
            (λ e. ((if is_empty t.state_lost then now else t.state_lost_since) ≤ e.1) × (e.1 ≤ now))
            source now t.state_lost (le', omega arith) old;
      logged = λ l. is_empty-insert source now t.state_lost;
    }

set-Lost :
    {n : ℕ} {t : Issues} (o : Option ℕ) (source : String) (now : ℕ)
    → n ≤ now
    → Lost n t
    → Lost now (set_marked o t source now).0
unfolding set_marked
set-Lost none source now le i = mark-Lost source now le i
set-Lost (some x) source now le i = later now le i

unmark-Lost :
    {n : ℕ} {t : Issues} (source : String) (now : ℕ)
    → n ≤ now
    → Lost n t
    → Lost now (unmark t source now).0
unfolding unmark
unmark-Lost {n} {t} source now le i = record {
  marks =
      All-remove_key (λ e. (t.state_lost_since ≤ e.1) × (e.1 ≤ now)) source t.state_lost
        (All-map (λ e h. (h.0, omega (arith, h.1, le))) t.state_lost i.marks);
  logged = λ l. cc;
}

clear-Lost :
    {n : ℕ} {t : Issues} (o : Option ℕ) (source : String) (before now : ℕ)
    → n ≤ now
    → Lost n t
    → Lost now (clear_marked o t source before now).0
unfolding clear_marked
clear-Lost none source before now le i = later now le i
clear-Lost {t = t} (some x) source before now le i = elim (Bool-cases (not (ltb x before))) [
  | inl y ↦ rw y (later now le i)
  | inr z ↦ rw z (unmark-Lost source now le i)
]

start-Lost : {t : Issues} → t.state_lost ≡ [] → t.state_lost_logged ≡ false → Lost 0 t
start-Lost {t} e l = record {
  marks = subst (All (λ x. (t.state_lost_since ≤ x.1) × (x.1 ≤ 0))) (sym e) tt;
  logged = λ k. cc;
}

-- Whatever sequence of SetStateLost and ClearStateLost at times that do not run backwards: a loss is
-- logged at warn only while a source is marked, and every mark lies between the start of the episode
-- and the last event, so that the length of an episode is never cut off at zero.
pub reaches-Lost : {n : ℕ} {t : Issues} → Reaches n t → Lost n t
unfolding set_state_lost clear_state_lost
reaches-Lost (start e l) = start-Lost e l
reaches-Lost (sets {t = t} source now le r) =
    set-Lost (lookup source t.state_lost) source now le (reaches-Lost r)
reaches-Lost (clears {t = t} source before now le r) =
    clear-Lost (lookup source t.state_lost) source before now le (reaches-Lost r)
