-- ===== src/Balancer/Tick.antt =====
-- internal/scd/balancer/tick.go: what a poll of a balancer records, and the log events of its
-- transitions. The answers of Xray and the time are arguments.
use scd.Prelude.{
  ℕ, suc, String, Bool, true, false, not, ◌&&◌, ◌||◌, none, some, List, [], ◌∷◌, ◌++◌, ◌==◌,
  string_eq, map, if◌then◌else◌, select, any, is_empty, compare_str, insert,
}
use scd.Sort.{stable_sort}
use scd.Xray.{outbound}
use scd.Config
use scd.Config.{Subscription}
use scd.Apply.{Namespace, owns}
use scd.Memory.Balancers.{
  Polled, unpolled, polled_ok, polled_error, Mode, no_mode, mode_override, mode_single, mode_pool,
  mode_none, mode_unknown, Observation, Selection,
}
use scd.Balancer.{Info, resolve_selection}

pub data Level : Type 0 where
  level_warn level_info level_debug : Level

pub data Name : Type 0 where
  selection_failed selection_recovered selection_changed : Name
  foreign_selection foreign_recovered observatory_unavailable : Name

pub record Event : Type 0 where
  pub level : Level
  pub name : Name
  pub details : List String

abbrev event : Level → Name → List String → Event
event l n ds = record { level = l; name = n; details = ds }

-- An error of a call: its text, whether the balancer was not found, whether the API is unavailable.
pub record Failure : Type 0 where
  pub message : String
  pub not_found : Bool
  pub unavailable : Bool

pub data Answer (A : Type 0) : Type 0 where
  answered : A → Answer A
  failed : Failure → Answer A

abbrev pub is_error : Polled → Bool
is_error unpolled = false
is_error polled_ok = false
is_error polled_error = true

abbrev pub is_unpolled : Polled → Bool
is_unpolled unpolled = true
is_unpolled polled_ok = false
is_unpolled polled_error = false

-- The number of a mode, to compare two.
abbrev mode_code : Mode → String
mode_code no_mode = ""
mode_code mode_override = "override"
mode_code mode_single = "single"
mode_code mode_pool = "pool"
mode_code mode_none = "none"
mode_code mode_unknown = "unknown"

abbrev pub same_mode : Mode → Mode → Bool
same_mode a b = mode_code a == mode_code b

-- record, on an error.
unfoldable pub record_failure : Selection → String → ℕ → Failure → Selection × List Event
record_failure s tag now e = (
  record s {
    balancer_tag = tag;
    last_checked_at = some now;
    state = polled_error;
    not_found = e.not_found;
    last_error = e.message;
    last_failure_at = some now;
    consecutive_failures = suc s.consecutive_failures;
  },
  if not (is_error s.state) || not (s.last_error == e.message)
      then event level_warn selection_failed (e.message ∷ []) ∷ []
      else [],
)

-- Whether the effective selection is another one, and the events of a success.
abbrev pub moved : Selection → String → Bool
moved s selected = is_unpolled s.state || not (selected == s.selected_tag)

unfoldable pub change_events : Selection → Mode → String → List Event
change_events s mode selected =
    if moved s selected || not (same_mode mode s.mode)
    then event
        (if is_unpolled s.state
            || (not (same_mode mode s.mode) || (selected == "" || s.selected_tag == ""))
          then level_info
          else level_debug)
        selection_changed (s.selected_tag ∷ selected ∷ mode_code mode ∷ [])
      ∷ []
    else []

-- record, on an answer.
unfoldable pub record_success : Selection → String → ℕ → Info → Selection × List Event
unfolding resolve_selection change_events
record_success s tag now info =
    let (mode, selected, pool) = resolve_selection info in
    (
      record s {
        balancer_tag = tag;
        last_checked_at = some now;
        previous_selected_tag =
            if moved s selected && not (is_unpolled s.state)
            then s.selected_tag
            else s.previous_selected_tag;
        selected_since = if moved s selected then some now else s.selected_since;
        state = polled_ok;
        mode = mode;
        selected_tag = selected;
        override_target = info.override_target;
        principle_targets = info.principle_targets;
        last_success_at = some now;
        last_error = "";
        not_found = false;
        consecutive_failures = 0;
      },
      (if is_error s.state then event level_info selection_recovered [] ∷ [] else [])
          ++ change_events s mode selected,
    )

unfoldable pub record_poll : Selection → String → ℕ → Answer Info → Selection × List Event
unfolding record_failure record_success
record_poll s tag now (failed e) = record_failure s tag now e
record_poll s tag now (answered info) = record_success s tag now info

-- The namespaces of the enabled sources with this balancer.
unfoldable pub owners : Subscription → String → List Namespace
owners sub tag =
    map (λ src. record { obs_prefix = sub.target.observatory_prefix; source_id = src.id })
      (select (λ (src : Config.Source). src.enabled && src.balancer == tag) sub.sources)

abbrev pub selected_tags : Info → List String
selected_tags info =
    if not (info.override_target == "") then info.override_target ∷ [] else info.principle_targets

unfoldable pub foreign_tags : List Namespace → List String → List String
foreign_tags [] tags = []
foreign_tags (n ∷ ns) tags =
    stable_sort compare_str (select (λ t. not (any (λ o. owns o outbound t) (n ∷ ns))) tags)

abbrev foreign_events : List String → List String → List Event
foreign_events prev [] = if is_empty prev then [] else event level_info foreign_recovered [] ∷ []
foreign_events prev (t ∷ ts) =
    event (if is_empty prev then level_warn else level_debug) foreign_selection (t ∷ t ∷ ts) ∷ []

-- recordForeign, given the namespaces of the balancer.
unfoldable pub note_foreign : Selection → List Namespace → Info → Selection × List Event
unfolding foreign_tags
note_foreign s ns info =
    if is_empty (selected_tags info)
    then (s, [])
    else let foreign = foreign_tags ns (selected_tags info) in
      (record s { foreign = foreign }, foreign_events s.foreign foreign)

unfoldable pub record_foreign : Selection → Subscription → String → Info → Selection × List Event
unfolding owners note_foreign
record_foreign s sub tag info = note_foreign s (owners sub tag) info

unfoldable pub observations :
    List Observation → List (String × Observation) → List (String × Observation)
observations [] m = m
observations (o ∷ os) m = observations os (insert o.tag o m)

-- recordObservatory, when it is enabled, and when it is not.
unfoldable pub record_observatory :
    Selection → Bool → ℕ → Answer (List Observation) → Selection × List Event
unfolding observations
record_observatory s false now a =
    (record s { observatory = none; observatory_error = ""; observatory_checked_at = none }, [])
record_observatory s true now (failed e) = (
  record s { observatory = none; observatory_error = e.message },
  if not (s.observatory_error == e.message)
      then event level_warn observatory_unavailable (e.message ∷ []) ∷ []
      else [],
)
record_observatory s true now (answered os) = (
  record s {
    observatory = some (observations os []);
    observatory_error = "";
    observatory_checked_at = some now;
  },
  [],
)

-- One observatory for each Xray: what the target has logged is debug.
abbrev quieter : Bool → Event → Event
quieter known e = if known then record e { level = level_debug } else e

abbrev foreign_part : Selection → Subscription → String → Answer Info → Selection × List Event
foreign_part s sub tag (failed e) = (s, [])
foreign_part s sub tag (answered info) = record_foreign s sub tag info

abbrev observatory_part :
    Selection → String → Bool → Bool → ℕ → Answer (List Observation) → Selection × List Event
observatory_part s known enabled checked now a =
    if not (checked || not enabled)
    then (s, [])
    else let (s', events) = record_observatory s enabled now a in
      (s', map (quieter (known == s'.observatory_error)) events)

-- The update of Tick: the selection, the observatory error that the target has logged, and the events.
unfoldable pub tick :
    Subscription
    → String
    → Bool
    → Bool
    → ℕ
    → Answer Info
    → Answer (List Observation)
    → Selection × String
    → (Selection × String) × List Event
unfolding record_poll record_foreign record_observatory
tick sub tag enabled checked now info obs (s, known) =
    let (s1, polled) = record_poll s tag now info in
    let (s2, foreign) = foreign_part s1 sub tag info in
    let (s3, seen) = observatory_part s2 known enabled checked now obs in
    ((s3, if checked then s3.observatory_error else known), polled ++ (foreign ++ seen))
