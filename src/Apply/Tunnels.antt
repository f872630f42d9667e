-- ===== src/Apply/Tunnels.antt =====
-- internal/scd/apply/inbounds.go and routing.go: the replacement of a source's inbounds and of its
-- routing rules. Both have the same loops over their own calls, tags and texts, and no rollback.
pub mod Calls
pub mod Counts
use scd.Prelude.{
  ℕ, ◌-◌, String, Bool, true, false, not, ◌&&◌, ◌||◌, Option, none, some, List, [], ◌∷◌, contains,
  string_eq, find_first, append, map,
}
use scd.Xray.{
  Server, World, Error, Result, ok, err, Handler, Kind, outbound, inbound, routing, list, add,
  remove,
}
use scd.Topology.{Tunnel}
use scd.Apply.{Owner, Report, Meta, new_report, kind_name, fail, note_removed, note_added}
use scd.Apply.Steps.{Step, and_then, guarded}
use scd.Apply.Outbounds.{finish}

-- What an apply of one kind reads from a tunnel: its tag and the resource, which may not build.
pub record Resource : Type 0 where
  pub kind : Kind
  pub tag : Tunnel → String
  pub make : Tunnel → Result Handler

-- The report and the world that the calls change.
pub record Progress (S : Type 0) : Type 0 where
  pub report : Report
  pub world : World S

abbrev conflict_start : Kind → String
conflict_start routing = "Managed routing rule \""
conflict_start inbound = "Managed inbound tag \""
conflict_start outbound = "Managed outbound tag \""

abbrev conflict_middle : Kind → String
conflict_middle routing = "\" conflicts with fixedRouting on target \""
conflict_middle inbound = "\" conflicts with fixedInbounds on target \""
conflict_middle outbound = "\" conflicts with fixedOutbounds on target \""

unfoldable pub conflict_report : Resource → Meta → Tunnel → Report
unfolding fail new_report
conflict_report k m tn =
    let r = fail (new_report k.kind m m.times.started []) (k.tag tn) (
      append (conflict_start k.kind)
        (append (k.tag tn) (append (conflict_middle k.kind) (append m.target_address "\".")))) in
    record r { duration_ms = m.times.finished - m.times.started }

-- The id of a failed item: the first tunnel's tag, else the name of the kind.
unfoldable pub failed_id : Resource → List Tunnel → String
failed_id k [] = kind_name k.kind
failed_id k (tn ∷ tunnels) = k.tag tn

module _ {S : Type 0} where
  unfoldable pub removed_one :
      String → Progress S → Option Error × World S → Option Error × Progress S
  removed_one tag p (some e, w) = (some e, record p { world = w })
  removed_one tag p (none, w) = (none, record { world = w; report = note_removed p.report tag })

  unfoldable pub added_one :
      String → Bool → Progress S → Option Error × World S → Option Error × Progress S
  added_one tag existed p (some e, w) = (some e, record p { world = w })
  added_one tag existed p (none, w) =
      (none, record { world = w; report = note_added p.report tag existed })

  -- The failed item of a change that ended with an error.
  unfoldable pub concluded : Resource → List Tunnel → Option Error × Progress S → Progress S
  unfolding fail failed_id
  concluded k tunnels (none, p) = p
  concluded k tunnels (some e, p) = record p {
    report = fail p.report (failed_id k tunnels) e.message;
  }

module _ {S : Type 0} (srv : Server S) (k : Resource) where
  unfoldable pub remove_one : String → Step (Progress S)
  unfolding removed_one
  remove_one tag p = removed_one tag p (remove srv k.kind tag p.world)

  unfoldable pub remove_owned : List String → Owner → List Handler → Step (Progress S)
  unfolding remove_one guarded
  remove_owned fixed owner [] p = (none, p)
  remove_owned fixed owner (h ∷ hs) p =
      guarded (not (contains fixed h.tag || not (owner k.kind h.tag))) (remove_one h.tag)
        (remove_owned fixed owner hs) p

  unfoldable pub send_one : List String → String → Result Handler → Step (Progress S)
  unfolding added_one
  send_one existing tag (err e) p = (some e, p)
  send_one existing tag (ok h) p =
      added_one tag (contains existing tag) p (add srv k.kind h p.world)

  unfoldable pub add_all : List String → List Tunnel → Step (Progress S)
  unfolding send_one and_then
  add_all existing [] p = (none, p)
  add_all existing (tn ∷ tunnels) p =
      and_then (send_one existing (k.tag tn) (k.make tn) p) (add_all existing tunnels)

  unfoldable pub replace_listed :
      List String
      → Owner
      → List Tunnel
      → Meta
      → Result (List Handler) × World S
      → Result Report × World S
  unfolding remove_owned add_all concluded finish new_report
  replace_listed fixed owner tunnels m (err e, w) = (err e, w)
  replace_listed fixed owner tunnels m (ok existing, w) =
      let begun : Progress S = record {
        report = new_report k.kind m m.times.started [];
        world = w;
      } in
      let done = concluded k tunnels (
        and_then (remove_owned fixed owner existing begun)
          (add_all (map (λ h. h.tag) existing) tunnels)) in
      (ok (finish m done.report), done.world)

  unfoldable pub checked :
      Option Tunnel → List String → Owner → List Tunnel → Meta → World S → Result Report × World S
  unfolding conflict_report replace_listed
  checked (some tn) fixed owner tunnels m w = (ok (conflict_report k m tn), w)
  checked none fixed owner tunnels m w = replace_listed fixed owner tunnels m (list srv k.kind w)

  unfoldable pub replace_all :
      List String → Owner → List Tunnel → Meta → World S → Result Report × World S
  unfolding checked
  replace_all fixed owner tunnels m w =
      checked (find_first (λ tn. contains fixed (k.tag tn)) tunnels) fixed owner tunnels m w

-- resources.Inbound, which a library of Xray builds from JSON.
abbrev pub inbounds_of : (Tunnel → Result Handler) → Resource
inbounds_of inbound_of = record { kind = inbound; tag = λ tn. tn.inbound_tag; make = inbound_of }

-- resources.Rule(tn, tn.OutboundTagCurrent), which cannot fail.
abbrev pub rules_of : (Tunnel → String → Handler) → Resource
rules_of rule_of = record {
  kind = routing;
  tag = λ tn. tn.route_tag;
  make = λ tn. ok (rule_of tn tn.outbound_tag_current);
}

unfoldable pub inbounds :
    {S : Type 0}
    → Server S
    → (Tunnel → Result Handler)
    → List String
    → Owner
    → List Tunnel
    → Meta
    → World S
    → Result Report × World S
unfolding replace_all
inbounds srv inbound_of fixed owner tunnels m w =
    replace_all srv (inbounds_of inbound_of) fixed owner tunnels m w

unfoldable pub rules :
    {S : Type 0}
    → Server S
    → (Tunnel → String → Handler)
    → List String
    → Owner
    → List Tunnel
    → Meta
    → World S
    → Result Report × World S
unfolding replace_all
rules srv rule_of fixed owner tunnels m w =
    replace_all srv (rules_of rule_of) fixed owner tunnels m w
