-- ===== src/Tests/Deciding.antt =====
-- Decide and the quarantine (internal/scd/selection/decide.go) at concrete inputs.
use scd.Prelude.{
  All, ltb, ◌+◌, ◌*◌, ℕ, ◌+◌, ◌*◌, ◌≡◌, refl, true, false, List, [], ◌∷◌, ◌==◌, nat_eq, string_eq,
  ltb, lookup, contains, select, find_last, length, keys, keep_value, Distinct, All, if◌then◌else◌,
}
use scd.Selection.{by_score}
use scd.Selection.Quarantine.{
  State, pair, pair_eq, minute, quarantined, quarantine_pair, release_since,
}
use scd.Selection.Quarantine.Release.{quarantined-quarantine_pair, release_since_lem}
use scd.Selection.Decide.{Slot, SelectionConfig, decide, expire, present}
use scd.Selection.Decide.Keys.{present_keys, final_keys, KeyKnown}
use scd.Selection.Decide.Keys.Final.{decide-Distinct}
use scd.Selection.Decide.Grounds.{tags_used, Answers}
use scd.Selection.Decide.Streaks.{Streak}
use scd.Selection.Decide.Sound.{decide-Answers, quarantined-expire}
use scd.Tests.Selecting.{whole, masque_line, three_lines}

-- One slot of a line in the file, and one of a line that has gone.
abbrev slots : List (Slot ℕ)
slots =
    record { candidate = masque_line "m-1" 5 "h2" 1; healthy = true }
    ∷ record { candidate = masque_line "m-9" 9 "h2" 0; healthy = false }
    ∷ []

abbrev quarantines : State
quarantines = record {
  quarantine =
      (pair (masque_line "m-3" 6 "h2" 0), 10 * minute)
      ∷ (pair (masque_line "m-9" 9 "h2" 0), 3 * minute)
      ∷ [];
  better = [];
}

abbrev cfg : SelectionConfig
cfg = record { strategy = by_score; switch_margin_percent = 20; switch_confirm_checks = 3 }

slots_known : All (KeyKnown three_lines) slots
unfolding present contains find_last
slots_known = (λ p. refl, (λ p. cc, tt))

slots-Distinct : Distinct (present_keys three_lines slots)
unfolding present contains select
slots-Distinct = (refl, tt)

decide-Distinct_example :
    Distinct (final_keys slots (decide whole slots three_lines quarantines (4 * minute) cfg).0)
decide-Distinct_example =
    decide-Distinct whole slots three_lines quarantines (4 * minute) cfg slots_known slots-Distinct

decide-Answers_example :
    let r = decide whole slots three_lines quarantines (4 * minute) cfg in
    Answers whole slots three_lines
      (expire quarantines (4 * minute))
      (4 * minute)
      cfg
      (tags_used slots r.0)
      []
      0
      slots
      r.0
    × All (Streak whole slots three_lines quarantines cfg) r.1.better
decide-Answers_example = decide-Answers whole slots three_lines quarantines (4 * minute) cfg

quarantines-Distinct : Distinct (keys quarantines.quarantine)
unfolding contains
quarantines-Distinct = (refl, (refl, tt))

quarantined-expire_example :
    quarantined (expire quarantines (4 * minute)) (masque_line "m-3" 6 "h2" 0) (4 * minute)
    ≡ quarantined quarantines (masque_line "m-3" 6 "h2" 0) (4 * minute)
quarantined-expire_example =
    quarantined-expire quarantines (masque_line "m-3" 6 "h2" 0) (4 * minute) quarantines-Distinct

quarantined-quarantine_pair_example :
    let c = masque_line "m-1" 5 "h2" 1 in
    let d = masque_line "m-3" 6 "h2" 0 in
    quarantined (quarantine_pair quarantines c 7 30) d 9
    ≡ (if pair c == pair d then ltb 9 (7 + 30 * minute) else quarantined quarantines d 9)
quarantined-quarantine_pair_example =
    quarantined-quarantine_pair quarantines (masque_line "m-1" 5 "h2" 1)
      (masque_line "m-3" 6 "h2" 0) 7 30 9

release_since_example :
    let k = pair (masque_line "m-3" 6 "h2" 0) in
    let (st', n) = release_since quarantines (4 * minute) 5 in
    (lookup k st'.quarantine
      ≡ keep_value (λ until. ltb until (4 * minute + 5 * minute)) (lookup k quarantines.quarantine))
    × (length st'.quarantine + n ≡ length quarantines.quarantine)
    × (st'.better ≡ quarantines.better)
release_since_example =
    release_since_lem quarantines (4 * minute) 5 (pair (masque_line "m-3" 6 "h2" 0))
      quarantines-Distinct
