-- ===== src/Balancer.antt =====
-- internal/scd/balancer/selection.go: the view of what a balancer of Xray selects. Balancer/Tick is the
-- record of a poll.
pub mod Tick
pub mod History
use Prim.Native.Char.{code}
use Prim.Native.String
use scd.Prelude.{
  ℕ, String, Bool, true, false, not, ◌&&◌, ◌||◌, Option, none, some, List, [], ◌∷◌, ◌==◌, string_eq,
  nat_eq, if◌then◌else◌, append, has_prefix, contains, find_first, any, lookup,
}
use scd.Memory.{Tunnel}
use scd.Memory.Balancers.{
  Mode, mode_override, mode_single, mode_pool, mode_none, mode_unknown, Observation, Selection,
}

-- xrayapi.BalancerInfo
pub record Info : Type 0 where
  pub override_target : String
  pub principle_targets : List String
  pub principle_known : Bool

-- ResolveSelection: the mode, the selected tag and the pool.
abbrev resolve_pool : List String → Mode × String × List String
resolve_pool [] = (mode_none, "", [])
resolve_pool (x ∷ []) = (mode_single, x, x ∷ [])
resolve_pool (x ∷ y ∷ ys) = (mode_pool, "", x ∷ y ∷ ys)

unfoldable pub resolve_selection : Info → Mode × String × List String
resolve_selection info =
    if not (info.override_target == "")
    then (mode_override, info.override_target, info.principle_targets)
    else if not info.principle_known
    then (mode_unknown, "", [])
    else resolve_pool info.principle_targets

-- strings.CutPrefix, the text first.
unfoldable pub cut_prefix : String → String → Option String
cut_prefix s String.[] = some s
cut_prefix String.[] (String.◌∷◌ d p) = none
cut_prefix (String.◌∷◌ c s) (String.◌∷◌ d p) =
    let rest = cut_prefix s p in if code c == code d then rest else none

-- strings.CutSuffix
abbrev after_char : Option String → String → Option String
after_char none front = none
after_char (some rest) front = some (append front rest)

unfoldable pub cut_suffix : String → String → Option String
cut_suffix String.[] t = if t == "" then some "" else none
cut_suffix (String.◌∷◌ c s) t =
    let rest = after_char (cut_suffix s t) (String.◌∷◌ c String.[]) in
    if String.◌∷◌ c s == t then some "" else rest

abbrev base_of : Option Tunnel → Option String
base_of none = none
base_of (some tn) = some tn.mapping.base_tunnel_id

abbrev or_else : Option String → Option String → Option String
or_else none o = o
or_else (some s) o = some s

abbrev by_base : List Tunnel → Option String → Option String
by_base tns none = none
by_base tns (some base) = base_of (find_first (λ tn. tn.mapping.base_tunnel_id == base) tns)

-- MapTag: the id of the tunnel, or none for an outbound that is not managed.
unfoldable pub map_tag : String → String → List Tunnel → Option String
unfolding cut_prefix
map_tag tag prefix tns =
    if tag == ""
    then none
    else or_else (base_of (find_first (λ tn. tn.mapping.outbound_tag_current == tag) tns)) (
        or_else
          (base_of (
            find_first
              (λ tn.
                tn.mapping.outbound_tag_initial == tag
                && not (tn.mapping.outbound_tag_current == tn.mapping.outbound_tag_initial))
              tns))
          (if prefix == "" then none else by_base tns (cut_prefix tag prefix)))

pub data Status : Type 0 where
  alive dead awaiting not_available : Status

pub record TunnelView : Type 0 where
  pub selected : Bool
  pub candidate : Bool
  pub observation : Option Observation
  pub status : Status

-- Whether the current tag counts as in the selector.
abbrev in_selector : Option String → String → Bool → Bool
in_selector none tag candidate = candidate
in_selector (some prefix) tag candidate = if prefix == "" then candidate else has_prefix tag prefix

abbrev observed : Option Observation → Tunnel → TunnelView → TunnelView
observed (some o) tn v = record v { observation = some o; status = if o.alive then alive else dead }
observed none tn v =
    if in_selector (cut_suffix tn.mapping.outbound_tag_initial tn.mapping.base_outbound_tag)
      tn.mapping.outbound_tag_current v.candidate
    then record v { status = awaiting }
    else v

abbrev viewed : Option (List (String × Observation)) → Tunnel → TunnelView → TunnelView
viewed none tn v = v
viewed (some observations) tn v =
    observed (lookup tn.mapping.outbound_tag_current observations) tn v

-- ViewTunnel
unfoldable pub view_tunnel : Tunnel → Selection → TunnelView
unfolding cut_suffix
view_tunnel tn s =
    let tag = tn.mapping.outbound_tag_current in
    viewed s.observatory tn (record {
      selected = not (s.selected_tag == "") && s.selected_tag == tag;
      candidate = contains s.principle_targets tag;
      observation = none;
      status = not_available;
    })
