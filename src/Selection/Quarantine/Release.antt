-- ===== src/Selection/Quarantine/Release.antt =====
-- internal/scd/selection/decide.go: QuarantinePair and ReleaseSince.
use scd.Prelude.{
  ℕ, ◌+◌, ◌*◌, ◌≡◌, refl, List, [], ◌∷◌, arith, ◌==◌, lookup, length, ltb, lookup-insert,
  if◌then◌else◌, Distinct, Bool-cases, inl, inr, keys, keep_entries, keep_value,
  lookup-keep_entries,
}
use scd.Selection.{Candidate}
use scd.Selection.Quarantine.{
  State, PairKey, pair, pair_eq, minute, quarantined, quarantine_pair, release_since,
  release_entries,
}

-- After QuarantinePair a pair is in quarantine exactly until its minutes are over, and the other
-- pairs are in quarantine exactly if they were before.
pub quarantined-quarantine_pair :
    {F : Type 0} (st : State) (c d : Candidate F) (now minutes later : ℕ)
    → quarantined (quarantine_pair st c now minutes) d later
      ≡ (if pair c == pair d then ltb later (now + minutes * minute) else quarantined st d later)
unfolding quarantined quarantine_pair
quarantined-quarantine_pair st c d now minutes later =
    rw (lookup-insert (pair c) (pair d) (now + minutes * minute) st.quarantine)
      (elim (Bool-cases (pair c == pair d)) [ inl e ↦ rw e | inr e ↦ rw e ])

kept_entries :
    (from minutes : ℕ) (m : List (PairKey × ℕ))
    → (release_entries from minutes m).0
      ≡ keep_entries (λ until. ltb until (from + minutes * minute)) m
unfolding release_entries keep_entries
kept_entries from minutes [] = refl
kept_entries from minutes ((j, until) ∷ m) = ground (arith, kept_entries from minutes m)

length-release_entries :
    (from minutes : ℕ) (m : List (PairKey × ℕ))
    → length (release_entries from minutes m).0 + (release_entries from minutes m).1 ≡ length m
unfolding release_entries
length-release_entries from minutes [] = refl
length-release_entries from minutes ((j, until) ∷ m) =
    ground (arith, length-release_entries from minutes m)

-- ReleaseSince keeps a quarantine, with its expiry, exactly if it runs until a time before `from` plus
-- its minutes, so that it started before `from`; it ends the others, returns how many, and leaves the
-- series of better candidates.
pub release_since_lem :
    (st : State) (from minutes : ℕ) (k : PairKey)
    → Distinct (keys st.quarantine)
    → let (st', n) = release_since st from minutes in
      (lookup k st'.quarantine
        ≡ keep_value (λ until. ltb until (from + minutes * minute)) (lookup k st.quarantine))
      × (length st'.quarantine + n ≡ length st.quarantine)
      × (st'.better ≡ st.better)
unfolding release_since
release_since_lem st from minutes k h = (
  rw (kept_entries from minutes st.quarantine)
      (lookup-keep_entries (λ until. ltb until (from + minutes * minute)) k st.quarantine h),
  length-release_entries from minutes st.quarantine,
  refl,
)
