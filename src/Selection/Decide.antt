-- ===== src/Selection/Decide.antt =====
-- internal/scd/selection/decide.go, Decide: what a sync does with the active slots of a source.
pub mod Slots
pub mod KeySets
pub mod Keys
pub mod Grounds
pub mod Used
pub mod Settling
pub mod Streaks
pub mod Sound
use scd.Prelude.{
  ℕ, suc, ◌+◌, ◌-◌, ◌≡◌, String, Bool, true, false, not, ◌&&◌, ◌||◌, Option, none, some, List, [],
  ◌∷◌, map, ◌==◌, nat_eq, string_eq, ltb, leb, contains, without, lookup, insert, remove_key,
  keep_entries, append, if◌then◌else◌, select, find_last,
}
use scd.Selection.{Candidate, Floats, Strategy, by_score, by_load, by_label}
use scd.Selection.Quarantine.{State, PairKey, pair, pair_eq, quarantined, replacement}

abbrev pub reason_gone : String
reason_gone = "gone"

abbrev pub reason_changed : String
reason_changed = "changed"

abbrev pub reason_better : String
reason_better = "better"

pub data ActionKind : Type 0 where
  keep replace remove : ActionKind

pub record Slot (F : Type 0) : Type 0 where
  pub candidate : Candidate F
  pub healthy : Bool

pub record Action (F : Type 0) : Type 0 where
  pub kind : ActionKind
  pub slot : ℕ
  pub to : Candidate F
  pub reason : String

-- config.SelectionConfig, as far as Decide reads it.
pub record SelectionConfig : Type 0 where
  pub strategy : Strategy
  pub switch_margin_percent : ℕ
  pub switch_confirm_checks : ℕ

-- Candidate{}
abbrev pub zero_candidate : {F : Type 0} → Candidate F
zero_candidate = record {
  tag = "";
  label = "";
  entry = "";
  exit = "";
  load = none;
  score = none;
  key = 0;
  endpoint = "";
  transport = "";
  priority = 0;
}

abbrev pub or_zero : {F : Type 0} → Option (Candidate F) → Candidate F
or_zero none = zero_candidate
or_zero (some c) = c

-- The maps inUse and keys.
pub record Taken : Type 0 where
  pub in_use : List String
  pub keys : List ℕ

abbrev pub tag_of : {F : Type 0} → Slot F → String
tag_of a = a.candidate.tag

abbrev pub tags : {F : Type 0} → List (Candidate F) → List String
tags = map (λ c. c.tag)

module _ {F : Type 0} (floats : Floats F) where
  abbrev load_metric : Candidate F → Option F
  load_metric c = elim c.load [ none ↦ none | some n ↦ some (floats.of_int n) ]

  metrics : Strategy → Candidate F → Option F × Option F
  metrics by_load c = (load_metric c, c.score)
  metrics _ c = (c.score, load_metric c)

  margin : ℕ → F → F → Bool
  margin percent mc ma =
      floats.lt mc ma
      && floats.le (floats.mul mc (floats.of_int 100))
          (floats.mul ma (floats.of_int (100 - percent)))

  second : ℕ → Option F → Option F → Bool
  second percent (some mc) (some ma) = margin percent mc ma
  second percent _ _ = false

  first : ℕ → Option F × Option F → Option F × Option F → Bool
  first percent (some mc, _) (some ma, _) = margin percent mc ma
  first percent (some _, mc) (none, ma) = second percent mc ma
  first percent (none, mc) (_, ma) = second percent mc ma

  -- The first metric that both have decides.
  unfoldable pub beats : Candidate F → Candidate F → SelectionConfig → Bool
  unfolding first second margin metrics
  beats c a cfg = first cfg.switch_margin_percent (metrics cfg.strategy c) (metrics cfg.strategy a)

-- take(i, c, reason)
abbrev pub take_slot : {F : Type 0} → Taken → ℕ → Candidate F → String → Action F × Taken
take_slot t i c reason = (
  record { kind = replace; slot = i; to = c; reason = reason },
  record { in_use = c.tag ∷ t.in_use; keys = c.key ∷ t.keys },
)

abbrev pub keep_slot : {F : Type 0} → ℕ → Action F
keep_slot i = record { kind = keep; slot = i; to = zero_candidate; reason = "" }

abbrev pub remove_slot : {F : Type 0} → ℕ → String → Action F
remove_slot i reason = record { kind = remove; slot = i; to = zero_candidate; reason = reason }

unfoldable pub present : {F : Type 0} → List (Candidate F) → String → Bool
present ranked = contains (tags ranked)

unfoldable pub gone_reason : {F : Type 0} → List (Candidate F) → Candidate F → String
gone_reason ranked a = if contains (map pair ranked) (pair a) then reason_changed else reason_gone

-- What the inner loop skips: a candidate in use, one whose key is in use, another transport of
-- the slot's key, one in quarantine.
unfoldable pub excluded : {F : Type 0} → State → ℕ → Taken → Candidate F → Candidate F → Bool
excluded st now t cur c =
    contains t.in_use c.tag
    || (contains t.keys c.key
        || (((c.key == cur.key) && not (c.transport == cur.transport)) || quarantined st c now))

-- Not the first allowed line of a masque key.
unfoldable pub repeated : {F : Type 0} → List ℕ → Candidate F → Bool
repeated seen c = not (c.transport == "") && contains seen c.key

abbrev pub count_of : Option ℕ → ℕ
count_of none = 0
count_of (some n) = n

abbrev pub series : {F : Type 0} → Candidate F → Candidate F → String
series cur c = append cur.tag (append ">" c.tag)

unfoldable pub is_keep : ActionKind → Bool
is_keep keep = true
is_keep _ = false

unfoldable pub is_by_label : Strategy → Bool
is_by_label by_label = true
is_by_label _ = false

-- byTag[a.Tag], the last candidate with the tag.
abbrev pub current : {F : Type 0} → List (Candidate F) → Slot F → Candidate F
current ranked a = or_zero (find_last (λ c. c.tag == tag_of a) ranked)

unfoldable pub switch :
    {F : Type 0}
    → Taken
    → Candidate F
    → Action F
    → Option (Candidate F) × List (String × ℕ)
    → Action F × Taken × List (String × ℕ)
switch t cur action (some c, better) =
    let (action', t') = take_slot t action.slot c reason_better in (action', t', better)
switch t cur action (none, better) = (action, record t { keys = cur.key ∷ t.keys }, better)

module _ {F : Type 0} (ranked : List (Candidate F)) (st : State) (now : ℕ) where
  settle_gone : Taken → ℕ → Candidate F → Option (Candidate F) → Action F × Taken
  unfolding gone_reason
  settle_gone t i a (some c) = take_slot t i c (gone_reason ranked a)
  settle_gone t i a none = (remove_slot i (gone_reason ranked a), t)

  -- One round of the first loop.
  unfoldable pub settle_slot : Taken → ℕ → Slot F → Action F × Taken
  unfolding present settle_gone
  settle_slot t i a =
      if present ranked (tag_of a)
      then (keep_slot i, t)
      else settle_gone t i a.candidate (replacement ranked t.in_use t.keys st now)

  unfoldable pub settle : Taken → ℕ → List (Slot F) → List (Action F) × Taken
  settle t i [] = ([], t)
  settle t i (a ∷ rest) =
      let (action, t') = settle_slot t i a in
      let (actions, t'') = settle t' (suc i) rest in (action ∷ actions, t'')

  module _ (floats : Floats F) (cfg : SelectionConfig) where
    -- better[k] = st.Better[k] + 1, and the switch when that is often enough.
    unfoldable pub count_better :
        List (String × ℕ) → Candidate F → Candidate F → Option (Candidate F) × List (String × ℕ)
    count_better better cur c =
        let k = series cur c in
        let n = suc (count_of (lookup k st.better)) in
        if leb cfg.switch_confirm_checks n
        then (some c, remove_key k (insert k n better))
        else (none, insert k n better)

    -- The inner loop: the candidate that the slot switches to, and the series.
    unfoldable pub look_for_better :
        Taken
        → List (String × ℕ)
        → Candidate F
        → List ℕ
        → List (Candidate F)
        → Option (Candidate F) × List (String × ℕ)
    look_for_better t better cur seen [] = (none, better)
    look_for_better t better cur seen (c ∷ cs) =
        let skip = look_for_better t better cur seen cs in
        let skip_seen = look_for_better t better cur (c.key ∷ seen) cs in
        if excluded st now t cur c
        then skip
        else if repeated seen c
        then skip
        else if not (beats floats c cur cfg)
        then skip_seen
        else count_better better cur c

    -- One round of the second loop.
    unfoldable pub improve_slot :
        Taken → List (String × ℕ) → Slot F → Action F → Action F × Taken × List (String × ℕ)
    improve_slot t better a action =
        if not (is_keep action.kind) || (not a.healthy || is_by_label cfg.strategy)
        then (action, t, better)
        else let cur = current ranked a in
          let t' = record t { keys = without t.keys cur.key } in
          switch t' cur action (look_for_better t' better cur [] ranked)

    unfoldable pub improve :
        Taken
        → List (String × ℕ)
        → List (Slot F)
        → List (Action F)
        → List (Action F) × List (String × ℕ)
    improve t better [] actions = ([], better)
    improve t better (a ∷ rest) [] = ([], better)
    improve t better (a ∷ rest) (action ∷ actions) =
        let (action', t', better') = improve_slot t better a action in
        let (actions', better'') = improve t' better' rest actions in (action' ∷ actions', better'')

-- delete of the expired quarantines
unfoldable pub expire : State → ℕ → State
expire st now = record st { quarantine = keep_entries (λ until. ltb now until) st.quarantine }

-- inUse and keys before the first loop.
abbrev pub initial : {F : Type 0} → List (Candidate F) → List (Slot F) → Taken
initial ranked active = record {
  in_use = map tag_of active;
  keys = map (λ a. a.candidate.key) (select (λ a. present ranked (tag_of a)) active);
}

module _ {F : Type 0} (floats : Floats F) where
  unfoldable pub decide :
      List (Slot F) → List (Candidate F) → State → ℕ → SelectionConfig → List (Action F) × State
  decide active ranked st now cfg =
      let st' = expire st now in
      let (actions, t) = settle ranked st' now (initial ranked active) 0 active in
      let (actions', better) = improve ranked st' now floats cfg t [] active actions in
      (actions', record st' { better = better })
