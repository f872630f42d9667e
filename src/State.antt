-- ===== src/State.antt =====
-- internal/scd/state/xray.go: the issues of a target with its Xray: the API that does not answer, and
-- the sources that lost their resources. A time is a number of nanoseconds.
pub mod Episodes
pub mod Losses
use scd.Prelude.{
  ℕ, ◌+◌, ◌-◌, String, Bool, true, false, not, Option, none, some, List, [], ◌∷◌, string_eq, lookup,
  insert, remove_key, is_empty, ltb, if◌then◌else◌,
}

pub record XrayIssue : Type 0 where
  pub error : String
  pub since : ℕ

-- The fields of Target that these operations read and write.
pub record Issues : Type 0 where
  pub xray_down : Option XrayIssue
  pub state_lost : List (String × ℕ)
  pub state_lost_since : ℕ
  pub state_lost_logged : Bool

unfoldable pub down_after : Option XrayIssue → String → ℕ → Option XrayIssue × Bool
down_after (some i) msg now = (some (record i { error = msg }), false)
down_after none msg now = (some (record { error = msg; since = now }), true)

unfoldable pub set_xray_down : Issues → String → ℕ → Issues × Bool
unfolding down_after
set_xray_down t msg now =
    let (d, first) = down_after t.xray_down msg now in (record t { xray_down = d }, first)

-- failedFor and was.
unfoldable pub failed_for : Option XrayIssue → ℕ → ℕ × Bool
failed_for none now = (0, false)
failed_for (some i) now = (now - i.since, true)

unfoldable pub clear_xray_down : Issues → ℕ → Issues × (ℕ × Bool)
unfolding failed_for
clear_xray_down t now = (record t { xray_down = none }, failed_for t.xray_down now)

-- The start of the first loss.
unfoldable pub lost_since : Issues → ℕ → ℕ
lost_since t now = if is_empty t.state_lost then now else t.state_lost_since

unfoldable pub mark : Issues → String → ℕ → Issues
unfolding lost_since
mark t source now = record t {
  state_lost = insert source now t.state_lost;
  state_lost_since = lost_since t now;
  state_lost_logged = true;
}

unfoldable pub set_marked : Option ℕ → Issues → String → ℕ → Issues × Bool
unfolding mark
set_marked (some at_time) t source now = (t, false)
set_marked none t source now = (mark t source now, not t.state_lost_logged)

unfoldable pub set_state_lost : Issues → String → ℕ → Issues × Bool
unfolding set_marked
set_state_lost t source now = set_marked (lookup source t.state_lost) t source now

-- lostFor and restored, when the mark is gone.
unfoldable pub unmark : Issues → String → ℕ → Issues × (ℕ × Bool)
unmark t source now =
    let left = remove_key source t.state_lost in
    (
      record t { state_lost = left; state_lost_logged = false },
      (if is_empty left then (now - t.state_lost_since, true) else (0, false)),
    )

unfoldable pub clear_marked : Option ℕ → Issues → String → ℕ → ℕ → Issues × (ℕ × Bool)
unfolding unmark
clear_marked none t source before now = (t, (0, false))
clear_marked (some at_time) t source before now =
    let cleared = unmark t source now in
    if not (ltb at_time before) then (t, (0, false)) else cleared

unfoldable pub clear_state_lost : Issues → String → ℕ → ℕ → Issues × (ℕ × Bool)
unfolding clear_marked
clear_state_lost t source before now = clear_marked (lookup source t.state_lost) t source before now

-- What NoteXray hears of a call: no error, an unavailable API, or another error.
pub data Call : Type 0 where
  answered : Call
  unavailable : String → Call
  other_error : Call

-- What it logs at the level of the target.
pub data Line : Type 0 where
  no_line xray_unavailable : Line
  xray_recovered : ℕ → Line

unfoldable pub line_down : Bool → Line
line_down true = xray_unavailable
line_down false = no_line

unfoldable pub line_up : ℕ × Bool → Line
line_up (d, true) = xray_recovered d
line_up (d, false) = no_line

unfoldable pub note_xray : Issues → Call → ℕ → Issues × Line
unfolding set_xray_down clear_xray_down line_down line_up
note_xray t answered now = let (t', r) = clear_xray_down t now in (t', line_up r)
note_xray t (unavailable msg) now =
    let (t', first) = set_xray_down t msg now in (t', line_down first)
note_xray t other_error now = (t, no_line)
