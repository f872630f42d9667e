-- ===== src/Selection/Decide/Slots.antt =====
-- One round of each loop of Decide, by its cases.
use scd.Prelude.{
  ◌⊎◌, ◌++◌, ◌&&◌, ◌||◌, not, ◌==◌, ==_refl, ==→eq, ap, ◌∙◌, sym, contains, All-map, ℕ, suc, ◌≤◌,
  ◌≡◌, refl, String, true, false, Option, none, some, List, [], ◌∷◌, arith, nat_eq, string_eq,
  without, lookup, All, Among, Bool-cases, inl, inr, find_first-some, find_first-none, leb,
}
use mathlib.Core.List.{append_assoc}
use scd.Selection.{Candidate, Floats}
use scd.Selection.Quarantine.{State, replacement, may_take}
use scd.Selection.Decide.{
  Action, replace, Slot, Taken, SelectionConfig, tag_of, take_slot, keep_slot, remove_slot,
  settle_slot, settle_gone, improve_slot, current, look_for_better, present, gone_reason, beats,
  count_of, series, reason_better, excluded, repeated, count_better, is_keep, is_by_label, switch,
}

All-append_one :
    {A : Type 0} (P : A → Type 0) (xs : List A) (x : A) → All P xs → P x → All P (xs ++ x ∷ [])
All-append_one P [] x a p = (p, tt)
All-append_one P (y ∷ ys) x a p = (a.0, All-append_one P ys x a.1 p)

module _ {F : Type 0} (ranked : List (Candidate F)) (st : State) (now : ℕ) where
  -- The outcomes of a round of the first loop.
  pub data Settled (t : Taken) (i : ℕ) (a : Slot F) : Action F × Taken → Type 0 where
    kept : present ranked (tag_of a) ≡ true → Settled t i a (keep_slot i, t)
    taken :
        (c : Candidate F)
        → present ranked (tag_of a) ≡ false
        → may_take t.in_use t.keys st now c ≡ true
        → Among c ranked
        → Settled t i a (take_slot t i c (gone_reason ranked a.candidate))
    removed :
        present ranked (tag_of a) ≡ false
        → All (λ c. may_take t.in_use t.keys st now c ≡ false) ranked
        → Settled t i a (remove_slot i (gone_reason ranked a.candidate), t)

  settle_gone-Settled :
      (t : Taken) (i : ℕ) (a : Slot F) (o : Option (Candidate F))
      → present ranked (tag_of a) ≡ false
      → replacement ranked t.in_use t.keys st now ≡ o
      → Settled t i a (settle_gone ranked st now t i a.candidate o)
  unfolding settle_gone replacement
  settle_gone-Settled t i a (some c) absent h =
      let (may, among) = find_first-some _ ranked c h in taken c absent may among
  settle_gone-Settled t i a none absent h = removed absent (find_first-none _ ranked h)

  pub settle_slot-Settled :
      (t : Taken) (i : ℕ) (a : Slot F) → Settled t i a (settle_slot ranked st now t i a)
  unfolding settle_slot
  settle_slot-Settled t i a = elim (Bool-cases (present ranked (tag_of a))) [
    | inl there ↦ rw there (kept there)
    | inr absent ↦ rw absent (settle_gone-Settled t i a _ absent refl)
  ]

  module _ (floats : Floats F) (cfg : SelectionConfig) where
    -- A candidate with a transport is the first of its key in the file that is not excluded.
    abbrev pub FirstLine : Taken → Candidate F → Candidate F → Type 0
    FirstLine t cur c =
        ((c.transport == "") ≡ true)
        ⊎ ((earlier : List (Candidate F)) × ((later : List (Candidate F)) × ((ranked
                  ≡ earlier ++ c ∷ later)
                × All (λ d. (d.key == c.key && not (excluded st now t cur d)) ≡ false) earlier)))

    -- The candidates of the loop so far are excluded or have been seen.
    abbrev Seen : Taken → Candidate F → List ℕ → List (Candidate F) → Type 0
    Seen t cur seen = All (λ d. (excluded st now t cur d || contains seen d.key) ≡ true)

    -- The candidate that a slot switches to: not excluded, better, and so often enough in a row.
    pub record Switches (t : Taken) (cur c : Candidate F) : Type 0 where
      pub among : Among c ranked
      pub allowed : excluded st now t cur c ≡ false
      pub better : beats floats c cur cfg ≡ true
      pub first : FirstLine t cur c
      pub confirmed : cfg.switch_confirm_checks ≤ suc (count_of (lookup (series cur c) st.better))

    abbrev Found : Taken → Candidate F → Option (Candidate F) × List (String × ℕ) → Type 0
    Found t cur (some c, better) = Switches t cur c
    Found t cur (none, better) = Unit

    count_better-Found :
        (t : Taken) (better : List (String × ℕ)) (cur c : Candidate F)
        → Among c ranked
        → excluded st now t cur c ≡ false
        → beats floats c cur cfg ≡ true
        → FirstLine t cur c
        → Found t cur (count_better ranked st now floats cfg better cur c)
    unfolding count_better
    count_better-Found t better cur c among allowed better_c first =
        let n = suc (count_of (lookup (series cur c) st.better)) in
        elim (Bool-cases (leb cfg.switch_confirm_checks n)) [
          | inl enough ↦ rw enough (record {
            among = among;
            allowed = allowed;
            better = better_c;
            first = first;
            confirmed = ground arith;
          })
          | inr early ↦ rw early tt
        ]

    first_line :
        (t : Taken) (cur c : Candidate F) (seen : List ℕ) (earlier later : List (Candidate F))
        → ranked ≡ earlier ++ c ∷ later
        → Seen t cur seen earlier
        → repeated seen c ≡ false
        → FirstLine t cur c
    unfolding repeated
    first_line t cur c seen earlier later e all fresh = elim (Bool-cases (c.transport == "")) [
      | inl y ↦ inl y
      | inr n ↦
          let unseen : contains seen c.key ≡ false = ground (arith, fresh, n) in
          inr (earlier, (later, (e, All-map (λ d h. same_key d h unseen) earlier all)))
    ]
      where
        same_key :
            (d : Candidate F)
            → (excluded st now t cur d || contains seen d.key) ≡ true
            → contains seen c.key ≡ false
            → (d.key == c.key && not (excluded st now t cur d)) ≡ false
        same_key d h unseen = elim (Bool-cases (d.key == c.key)) [
          | inl y ↦
              let other = ap (contains seen) (==→eq d.key c.key y) ∙ unseen in
              ground (arith, h, other)
          | inr n ↦ ground (arith, n)
        ]

    Seen-cons :
        (t : Taken) (cur : Candidate F) (key : ℕ) (seen : List ℕ) (earlier : List (Candidate F))
        → Seen t cur seen earlier
        → Seen t cur (key ∷ seen) earlier
    unfolding contains
    Seen-cons t cur key seen earlier = All-map (λ d h. ground (arith, h)) earlier

    look_for_better-Found :
        (t : Taken) (better : List (String × ℕ)) (cur : Candidate F) (seen : List ℕ)
        (earlier cs : List (Candidate F))
        → ranked ≡ earlier ++ cs
        → Seen t cur seen earlier
        → ((c : Candidate F) → Among c cs → Among c ranked)
        → Found t cur (look_for_better ranked st now floats cfg t better cur seen cs)
    unfolding look_for_better contains
    look_for_better-Found t better cur seen earlier [] e all sub = tt
    look_for_better-Found t better cur seen earlier (c ∷ cs) e all sub =
        let sub' : (d : Candidate F) → Among d cs → Among d ranked = λ d m. sub d (inr m) in
        let e' : ranked ≡ (earlier ++ c ∷ []) ++ cs = e ∙ sym (append_assoc earlier (c ∷ []) cs) in
        let skip = λ (x : (excluded st now t cur c || contains seen c.key) ≡ true).
          look_for_better-Found t better cur seen (earlier ++ c ∷ []) cs e'
            (All-append_one _ earlier c all x) sub' in
        let skip_seen =
          look_for_better-Found t better cur (c.key ∷ seen) (earlier ++ c ∷ []) cs e'
            (All-append_one _ earlier c (Seen-cons t cur c.key seen earlier all)
              (ground (arith, ==_refl c.key)))
            sub' in
        elim (Bool-cases (excluded st now t cur c)) [
          | inl out ↦ rw out (skip (ground (arith, out)))
          | inr allowed ↦ elim (Bool-cases (repeated seen c)) [
            | inl again ↦ rw (allowed, again) (skip (again_seen again))
            | inr new ↦ elim (Bool-cases (beats floats c cur cfg)) [
              | inl wins ↦
                  rw (allowed, new, wins)
                    (count_better-Found t better cur c (sub c (inl refl)) allowed wins
                      (first_line t cur c seen earlier cs e all new))
              | inr loses ↦ rw (allowed, new, loses) skip_seen
            ]
          ]
        ]
      where
        again_seen :
            repeated seen c ≡ true → (excluded st now t cur c || contains seen c.key) ≡ true
        again_seen again = unfold repeated in ground (arith, again)

    -- The outcomes of a round of the second loop, for the slot's action of the first.
    pub data Improved (t : Taken) (a : Slot F) (action : Action F)
        : Action F × Taken × List (String × ℕ) → Type 0 where
      as_is : {better : List (String × ℕ)} → Improved t a action (action, t, better)
      stays :
          {better : List (String × ℕ)}
          → is_keep action.kind ≡ true
          → Improved t a action (
            action,
            record t { keys = (current ranked a).key ∷ without t.keys (current ranked a).key },
            better,
          )
      switches :
          {better : List (String × ℕ)} (c : Candidate F)
          → is_keep action.kind ≡ true
          → a.healthy ≡ true
          → is_by_label cfg.strategy ≡ false
          → Switches
              (record t { keys = without t.keys (current ranked a).key })
              (current ranked a)
              c
          → Improved t a action (
            record { kind = replace; slot = action.slot; to = c; reason = reason_better },
            record {
              in_use = c.tag ∷ t.in_use;
              keys = c.key ∷ without t.keys (current ranked a).key;
            },
            better,
          )

    switch-Improved :
        (t : Taken) (a : Slot F) (action : Action F)
        (found : Option (Candidate F) × List (String × ℕ))
        → is_keep action.kind ≡ true
        → a.healthy ≡ true
        → is_by_label cfg.strategy ≡ false
        → let t' = record t { keys = without t.keys (current ranked a).key } in
          Found t' (current ranked a) found
          → Improved t a action (switch t' (current ranked a) action found)
    unfolding switch
    switch-Improved t a action (some c, better) k h s found = switches c k h s found
    switch-Improved t a action (none, better) k h s found = stays k

    pub improve_slot-Improved :
        (t : Taken) (better : List (String × ℕ)) (a : Slot F) (action : Action F)
        → Improved t a action (improve_slot ranked st now floats cfg t better a action)
    unfolding improve_slot
    improve_slot-Improved t better a action = elim (Bool-cases (is_keep action.kind)) [
      | inr other ↦ rw other as_is
      | inl k ↦ elim (Bool-cases a.healthy) [
        | inr sick ↦ simp (k, sick) as_is
        | inl h ↦ elim (Bool-cases (is_by_label cfg.strategy)) [
          | inl l ↦ simp (k, h, l) as_is
          | inr s ↦
              simp (k, h, s)
                (switch-Improved t a action _ k h s (
                  look_for_better-Found _ better (current ranked a) [] [] ranked refl tt
                    (λ c m. m)))
        ]
      ]
    ]
