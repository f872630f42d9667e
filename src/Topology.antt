-- ===== src/Topology.antt =====
-- internal/scd/topology/topology.go: the tunnels of a source on its target, with their ports and tags.
pub mod Ports
pub mod Spaces
use scd.Prelude.{
  ℕ, suc, ◌+◌, ◌-◌, Ordering, String, Bool, true, false, not, ◌&&◌, ◌||◌, Option, none, some, List,
  [], ◌∷◌, ◌++◌, map, ◌==◌, string_eq, append, compare_str, leb, length, take, drop, if◌then◌else◌,
}
use scd.Sort.{compare_nat, or_else, stable_sort}
use scd.Vless.{Skip}
use scd.Country
use scd.Config.{PortRange, Source, Target, SourceSelection, candidate_type}
use scd.Selection.{Floats, Candidate, rank, pick}
use scd.Outbound.{Spec, Normalized, Builder, for_target}
use scd.Manifest.{Entry, Manifest, selection_candidate}

pub record PreparedOutbound : Type 0 where
  pub tag : String
  pub normalized : Normalized
  pub json : Spec

pub record Tunnel : Type 0 where
  pub source_id : String
  pub protocol : String
  pub transport : String
  pub base_tunnel_id : String
  pub display_name : String
  pub country_iso2 : String
  pub base_outbound_tag : String
  pub outbound_tag_initial : String
  pub outbound_tag_current : String
  pub inbound_tag : String
  pub route_tag : String
  pub listen : String
  pub port : ℕ
  pub outbound_initial : PreparedOutbound
  pub outbound_without_prefix : PreparedOutbound

abbrev iso_of : Option Country.Info → String
iso_of none = ""
iso_of (some i) = i.iso2

unfoldable pub prepare : {F : Type 0} → Builder → Entry F → Target → String → PreparedOutbound
unfolding for_target
prepare b e t tag =
    if not (e.protocol == "")
    then record {
      tag = tag;
      normalized = record e.normalized { tag = tag };
      json = b.with_tag e.json_outbound tag;
    }
    else let n = for_target e.normalized tag t.vision_udp443_override in
      record { tag = tag; normalized = n; json = b.build n }

unfoldable pub new_tunnel : {F : Type 0} → Builder → Entry F → String → Target → String → ℕ → Tunnel
unfolding prepare
new_tunnel b e source_id t listen port =
    let initial = append t.observatory_prefix e.tag in
    record {
      source_id = source_id;
      protocol = e.protocol;
      transport = if e.protocol == "masque" then (selection_candidate e).transport else "";
      base_tunnel_id = e.tag;
      display_name = e.label;
      country_iso2 = iso_of e.country;
      base_outbound_tag = e.tag;
      outbound_tag_initial = initial;
      outbound_tag_current = initial;
      inbound_tag = append "in-" e.tag;
      route_tag = append "route-" e.tag;
      listen = listen;
      port = port;
      outbound_initial = prepare b e t initial;
      outbound_without_prefix = prepare b e t e.tag;
    }

-- The order of byTag and of targetOutbounds: tag, line, raw link.
unfoldable pub tag_order : {F : Type 0} → Entry F → Entry F → Ordering
tag_order a b =
    or_else (compare_str a.tag b.tag)
      (or_else (compare_nat a.line b.line) (compare_str a.normalized.raw b.normalized.raw))

-- max(pr.End-pr.Start+1, 0)
abbrev pub capacity : PortRange → ℕ
capacity pr = suc pr.last - pr.start

-- The numbers in the text of the detail are not modelled.
abbrev exhausted_skip : {F : Type 0} → Entry F → Skip
exhausted_skip e = record {
  line = e.line;
  raw = e.normalized.raw;
  label = some e.label;
  code = "port_range_exhausted";
  reason = "The source portRange has no free port for this line.";
  details = "more tunnels were generated than portRange can allocate ports" ∷ [];
}

unfoldable pub by_tag : {F : Type 0} → List (Entry F) → PortRange → List (Entry F) × List Skip
unfolding tag_order
by_tag all pr =
    let entries = stable_sort tag_order all in
    if leb (length entries) (capacity pr)
    then (entries, [])
    else (take (capacity pr) entries, map exhausted_skip (drop (capacity pr) entries))

unfoldable pub allocate :
    {F : Type 0} → Builder → String → Target → String → ℕ → List (Entry F) → List Tunnel
unfolding new_tunnel
allocate b source_id t listen port [] = []
allocate b source_id t listen port (e ∷ es) =
    new_tunnel b e source_id t listen port ∷ allocate b source_id t listen (suc port) es

module _ {F : Type 0} (floats : Floats F) (b : Builder) where
  -- The switch over the type of the source.
  unfoldable pub active :
      Manifest F → Source → PortRange → Option SourceSelection → List (Entry F) × List Skip
  unfolding by_tag candidate_type
  active m src pr none = if candidate_type src.type_name then ([], []) else by_tag m.entries pr
  active m src pr (some s) =
      if candidate_type src.type_name
      then (
        pick selection_candidate (rank floats selection_candidate s.strategy m.entries)
            src.max_active,
        [],
      )
      else by_tag m.entries pr

  unfoldable pub allocated :
      Manifest F → Source → Target → Option String → Option PortRange → List Tunnel × List Skip
  unfolding active allocate
  allocated m src t none pr = ([], [])
  allocated m src t (some listen) none = ([], [])
  allocated m src t (some listen) (some pr) =
      let (entries, skipped) = active m src pr src.selection in
      (allocate b src.id t listen pr.start entries, skipped)

  unfoldable pub build_source : Manifest F → Source → Target → List Tunnel × List Skip
  unfolding allocated
  build_source m src t = allocated m src t t.inbound_socks src.port_range
