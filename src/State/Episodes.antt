-- ===== src/State/Episodes.antt =====
-- internal/scd/state/xray.go: NoteXray over a sequence of calls.
use scd.Prelude.{ℕ, ◌-◌, ◌≡◌, refl, Option, none, some, List, [], ◌∷◌}
use scd.State.{
  Issues, XrayIssue, Call, answered, unavailable, other_error, Line, no_line, xray_unavailable,
  xray_recovered, note_xray, set_xray_down, clear_xray_down, down_after, failed_for, line_down,
  line_up,
}

-- A run of NoteXray: calls with their times, and the lines that it logs.
pub data Run : Issues → List (Call × ℕ) → List (Line × ℕ) → Issues → Type 0 where
  start : {t : Issues} → Run t [] [] t
  next :
      {t u : Issues} {calls : List (Call × ℕ)} {lines : List (Line × ℕ)} (c : Call) (now : ℕ)
      → Run t calls lines u
      → Run t ((c, now) ∷ calls) (((note_xray u c now).1, now) ∷ lines) (note_xray u c now).0

-- The lines alternate, the newest first: an episode that starts when there is none, and one that ends
-- after the time since its start. The option is the start of the episode that goes on.
pub data Alternates : List (Line × ℕ) → Option ℕ → Type 0 where
  silent : Alternates [] none
  nothing :
      {lines : List (Line × ℕ)} {o : Option ℕ} (now : ℕ)
      → Alternates lines o
      → Alternates ((no_line, now) ∷ lines) o
  fails :
      {lines : List (Line × ℕ)} (now : ℕ)
      → Alternates lines none
      → Alternates ((xray_unavailable, now) ∷ lines) (some now)
  recovers :
      {lines : List (Line × ℕ)} (since now : ℕ)
      → Alternates lines (some since)
      → Alternates ((xray_recovered (now - since), now) ∷ lines) none

abbrev pub episode : Option XrayIssue → Option ℕ
episode none = none
episode (some i) = some i.since

note-Alternates :
    (d : Option XrayIssue) (u : Issues) (lines : List (Line × ℕ)) (c : Call) (now : ℕ)
    → u.xray_down ≡ d
    → Alternates lines (episode d)
    → Alternates (((note_xray u c now).1, now) ∷ lines) (episode (note_xray u c now).0.xray_down)
unfolding note_xray set_xray_down clear_xray_down down_after failed_for line_down line_up
note-Alternates none u lines answered now e a = rw e (nothing now a)
note-Alternates none u lines (unavailable msg) now e a = rw e (fails now a)
note-Alternates none u lines other_error now e a = rw e (nothing now a)
note-Alternates (some i) u lines answered now e a = rw e (recovers i.since now a)
note-Alternates (some i) u lines (unavailable msg) now e a = rw e (nothing now a)
note-Alternates (some i) u lines other_error now e a = rw e (nothing now a)

-- From a target whose Xray API answers, whatever calls NoteXray hears of: the lines that it logs
-- alternate between xray_unavailable and xray_recovered, starting with the first, each recovery
-- reports the time since the episode's start, and the state holds the start of an open episode.
pub run-Alternates :
    {t u : Issues} {calls : List (Call × ℕ)} {lines : List (Line × ℕ)}
    → t.xray_down ≡ none
    → Run t calls lines u
    → Alternates lines (episode u.xray_down)
run-Alternates up start = rw up silent
run-Alternates up (next {u = u} {lines = lines} c now r) =
    note-Alternates u.xray_down u lines c now refl (run-Alternates up r)
