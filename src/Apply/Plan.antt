-- ===== src/Apply/Plan.antt =====
-- internal/scd/apply/plan.go: the plan of one kind for a source, and Apply.
pub mod Applied
use scd.Prelude.{
  ℕ, ◌+◌, String, Bool, true, false, ◌&&◌, Option, none, some, List, [], ◌∷◌, ◌++◌, length, map,
  append, if◌then◌else◌,
}
use scd.Sort.{stable_sort}
use scd.Vless.{Skip}
use scd.Xray.{Server, World, Error, Result, ok, err, Handler, Kind, outbound, inbound, routing}
use scd.Config.{Source, Target, SourceSelection, candidate_type}
use scd.Selection.{Floats}
use scd.Outbound.{Spec, Builder}
use scd.Manifest.{Entry, Manifest, Summary}
use scd.Topology.{Tunnel, prepare, build_source, tag_order}
use scd.Apply.{Report, Meta, Namespace, owns, failed_report}
use scd.Apply.Outbounds.{outbounds}
use scd.Apply.Tunnels.{inbounds, rules}
use scd.Apply.Slots.{Resources}

-- outbound.Hash, and jsonHash of the items of an inbound or routing plan.
pub record Hashes : Type 0 where
  pub of_outbounds : List Spec → String
  pub of_inbounds : List (String × String × ℕ) → String
  pub of_rules : List (String × String × String) → String

-- The topology is the list of its tunnels.
pub record Plan : Type 0 where
  pub kind : Kind
  pub source_id : String
  pub max_active : ℕ
  pub tunnels : Option (List Tunnel)
  pub outbounds : List Spec
  pub skipped : List Skip
  pub summary : Option Summary
  pub managed_ids : List String
  pub manifest_hash : String

abbrev pub tunnels_of : Option (List Tunnel) → List Tunnel
tunnels_of none = []
tunnels_of (some tns) = tns

-- fill of a plan of each kind.
unfoldable pub fill : Hashes → Plan → Kind → Plan
fill hs p outbound = record p {
  managed_ids = map (λ o. o.tag) p.outbounds;
  manifest_hash = hs.of_outbounds p.outbounds;
}
fill hs p inbound = record p {
  managed_ids = map (λ tn. tn.inbound_tag) (tunnels_of p.tunnels);
  manifest_hash =
      hs.of_inbounds (map (λ tn. (tn.inbound_tag, tn.listen, tn.port)) (tunnels_of p.tunnels));
}
fill hs p routing = record p {
  managed_ids = map (λ tn. tn.route_tag) (tunnels_of p.tunnels);
  manifest_hash =
      hs.of_rules (
        map (λ tn. (tn.route_tag, tn.inbound_tag, tn.outbound_tag_current)) (tunnels_of p.tunnels));
}

abbrev pub initial_specs : List Tunnel → List Spec
initial_specs = map (λ tn. tn.outbound_initial.json)

unfoldable pub target_outbounds :
    {F : Type 0} → Builder → Manifest F → Target → List Tunnel → Bool → List Spec
unfolding tag_order prepare
target_outbounds b m t tunnels true = initial_specs tunnels
target_outbounds b m t tunnels false =
    map (λ e. (prepare b e t (append t.observatory_prefix e.tag)).json)
      (stable_sort tag_order m.entries)

abbrev is_some {ℓ} : {A : Type ℓ} → Option A → Bool
is_some none = false
is_some (some a) = true

abbrev no_selection : Source → Error
no_selection src = record {
  message =
      append "source \""
        (append src.id (append "\" of type \"" (append src.type_name "\" has no selection")));
  unavailable = false;
  is_cap_reached = false;
}

-- p.Outbounds, of the plan of the outbounds only.
unfoldable pub kind_outbounds :
    {F : Type 0} → Builder → Kind → Manifest F → Source → Target → List Tunnel → List Spec
unfolding target_outbounds
kind_outbounds b outbound m src t tunnels =
    target_outbounds b m t tunnels (is_some t.inbound_socks && is_some src.port_range)
kind_outbounds b inbound m src t tunnels = []
kind_outbounds b routing m src t tunnels = []

module _ {F : Type 0} (floats : Floats F) (b : Builder) (hashes : Hashes) where
  unfilled : Kind → Manifest F → Source → Target → Plan
  unfolding kind_outbounds build_source
  unfilled kind m src t =
      let (tunnels, overflow) = build_source floats b m src t in
      let s = record m.summary {
        skipped = m.summary.skipped + length overflow;
        port_range_exhausted = length overflow;
      } in
      record {
        kind = kind;
        source_id = src.id;
        max_active = src.max_active;
        tunnels = some tunnels;
        outbounds = kind_outbounds b kind m src t tunnels;
        skipped = m.skipped ++ overflow;
        summary = some s;
        managed_ids = [];
        manifest_hash = "";
      }

  unfoldable pub plan_for_source : Kind → Manifest F → Source → Target → Result Plan
  unfolding unfilled fill candidate_type
  plan_for_source kind m src t =
      if candidate_type src.type_name && not_selected src.selection
      then err (no_selection src)
      else ok (fill hashes (unfilled kind m src t) kind)
    where
      not_selected : Option SourceSelection → Bool
      not_selected none = true
      not_selected (some s) = false

unfoldable pub topology_plan : Hashes → Kind → String → List Tunnel → Plan
unfolding fill
topology_plan hashes kind source_id tunnels =
    fill hashes
      (record {
        kind = kind;
        source_id = source_id;
        max_active = 0;
        tunnels = some tunnels;
        outbounds = specs kind;
        skipped = [];
        summary = none;
        managed_ids = [];
        manifest_hash = "";
      })
      kind
  where
    specs : Kind → List Spec
    specs outbound = initial_specs tunnels
    specs inbound = []
    specs routing = []

-- The end of Apply: only the outbound report carries the skipped lines.
unfoldable pub report_of : Kind → Meta → List Skip → Result Report → Report
unfolding failed_report
report_of kind m skipped (err e) = failed_report kind m skipped e
report_of outbound m skipped (ok r) = record r { skipped = skipped }
report_of inbound m skipped (ok r) = r
report_of routing m skipped (ok r) = r

module _ {S : Type 0} (srv : Server S) (to_proto : Spec → Result Handler) (res : Resources) where
  run : Kind → Plan → Target → Meta → World S → Result Report × World S
  unfolding outbounds inbounds rules owns
  run outbound p t m w =
      outbounds srv to_proto t.fixed_outbounds
        (owns (record { obs_prefix = t.observatory_prefix; source_id = p.source_id })) p.outbounds m
        w
  run inbound p t m w =
      inbounds srv res.inbound_of t.fixed_inbounds
        (owns (record { obs_prefix = t.observatory_prefix; source_id = p.source_id }))
        (tunnels_of p.tunnels) m w
  run routing p t m w =
      rules srv res.rule_of t.fixed_routing
        (owns (record { obs_prefix = t.observatory_prefix; source_id = p.source_id }))
        (tunnels_of p.tunnels) m w

  apply_kind : Kind → Plan → Target → Meta → World S → Report × World S
  unfolding run report_of
  apply_kind k p t m w =
      let m' = record m {
        source_id = p.source_id;
        target_address = t.address;
        max_outbounds = p.max_active;
      } in
      let (r, w') = run k p t m' w in (report_of k m' p.skipped r, w')

  unfoldable pub apply : Plan → Target → Meta → World S → Report × World S
  unfolding apply_kind
  apply p t m w = apply_kind p.kind p t m w
