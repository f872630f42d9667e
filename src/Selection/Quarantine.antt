-- ===== src/Selection/Quarantine.antt =====
-- internal/scd/selection/decide.go, the first part: the selection state of a source, with the pairs in
-- quarantine, and Replacement. A time is a number of nanoseconds.
pub mod Release
use scd.Prelude.{
  ℕ, suc, ◌+◌, ◌*◌, ◌≡◌, ◌↔◌, String, Bool, true, false, not, ◌&&◌, ◌||◌, Option, none, some, List,
  [], ◌∷◌, arith, Eq, ◌==◌, nat_eq, string_eq, ltb, leb, contains, lookup, insert, lookup-insert,
  find_first, if◌then◌else◌,
}
use scd.Selection.{Candidate}

pub record PairKey : Type 0 where
  pub key : ℕ
  pub endpoint : String
  pub transport : String

abbrev pub pair_beq : PairKey → PairKey → Bool
pair_beq a b = a.key == b.key && (a.endpoint == b.endpoint && a.transport == b.transport)

pub pair_beq_iff : (a b : PairKey) → (pair_beq a b ≡ true) ↔ (a ≡ b)
pair_beq_iff a b =
    ground
      (arith, string_eq.beq_iff a.endpoint b.endpoint, string_eq.beq_iff a.transport b.transport)

instance abbrev pub pair_eq : Eq PairKey
pair_eq = record { beq = pair_beq; beq_iff = pair_beq_iff }

abbrev pub pair : {F : Type 0} → Candidate F → PairKey
pair c = record { key = c.key; endpoint = c.endpoint; transport = c.transport }

-- The quarantined pairs with their expiry, and the hysteresis series by "<active>><candidate>".
pub record State : Type 0 where
  pub quarantine : List (PairKey × ℕ)
  pub better : List (String × ℕ)

abbrev pub minute : ℕ
minute = 60_000_000_000

-- `until, ok := …; ok && now.Before(until)`
abbrev pub in_force : ℕ → Option ℕ → Bool
in_force now none = false
in_force now (some until) = ltb now until

unfoldable pub quarantined : {F : Type 0} → State → Candidate F → ℕ → Bool
quarantined st c now = in_force now (lookup (pair c) st.quarantine)

unfoldable pub quarantine_pair : {F : Type 0} → State → Candidate F → ℕ → ℕ → State
quarantine_pair st c now minutes = record st {
  quarantine = insert (pair c) (now + minutes * minute) st.quarantine;
}

-- until.Add(-minutes) is not before `from`: the quarantine started at `from` or later.
abbrev pub started_since : ℕ → ℕ → ℕ → Bool
started_since from minutes until = not (ltb until (from + minutes * minute))

release_entries : ℕ → ℕ → List (PairKey × ℕ) → List (PairKey × ℕ) × ℕ
release_entries from minutes [] = ([], 0)
release_entries from minutes ((k, until) ∷ m) =
    let (kept, n) = release_entries from minutes m in
    if started_since from minutes until then (kept, n + 1) else ((k, until) ∷ kept, n)

unfoldable pub release_since : State → ℕ → ℕ → State × ℕ
unfolding release_entries
release_since st from minutes =
    let (kept, n) = release_entries from minutes st.quarantine in
    (record st { quarantine = kept }, n)

-- The test of Replacement.
unfoldable pub may_take : {F : Type 0} → List String → List ℕ → State → ℕ → Candidate F → Bool
may_take active keys st now c =
    not (contains active c.tag) && (not (contains keys c.key) && not (quarantined st c now))

unfoldable pub replacement :
    {F : Type 0} → List (Candidate F) → List String → List ℕ → State → ℕ → Option (Candidate F)
unfolding may_take
replacement ranked active keys st now = find_first (may_take active keys st now) ranked
