-- ===== src/Selection/Decide/Keys/Final.antt =====
-- internal/scd/selection/decide.go: the keys of the slots after both loops of Decide.
use scd.Prelude.{ℕ, List, [], nat_eq, string_eq, Distinct, All}
use scd.Selection.{Candidate, Floats}
use scd.Selection.Quarantine.{State}
use scd.Selection.Decide.{Slot, SelectionConfig, settle, decide, expire, initial}
use scd.Selection.Decide.Keys.{final_keys, present_keys, KeyKnown}
use scd.Selection.Decide.Keys.Settle.{settle_keys, settle-KeepsKeys}
use scd.Selection.Decide.Keys.Improve.{improve_keys}

-- Whatever Decide does with the slots, no two of them have the same key afterwards. The slots of
-- candidates still in the file have distinct keys before, and the file has the key of each of them
-- under its tag.
pub decide-Distinct :
    {F : Type 0} (floats : Floats F) (active : List (Slot F)) (ranked : List (Candidate F))
    (st : State) (now : ℕ) (cfg : SelectionConfig)
    → All (KeyKnown ranked) active
    → Distinct (present_keys ranked active)
    → Distinct (final_keys active (decide floats active ranked st now cfg).0)
unfolding decide
decide-Distinct floats active ranked st now cfg known distinct =
    let st' = expire st now in
    let settled = settle_keys ranked st' now (initial ranked active) 0 active distinct (λ k m. m) in
    let (actions, t) = settle ranked st' now (initial ranked active) 0 active in
    (improve_keys ranked st' now floats cfg t [] active actions
      (settle-KeepsKeys ranked st' now (initial ranked active) 0 active known) settled.distinct
      settled.used).distinct
