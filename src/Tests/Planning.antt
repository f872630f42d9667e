-- ===== src/Tests/Planning.antt =====
-- Manifests, topologies and plans (internal/scd/manifest, topology, apply/plan.go) at concrete inputs.
use scd.Prelude.{
  ◌+◌, ◌&&◌, not, ℕ, ◌≤◌, ◌≡◌, refl, inl, inr, ◌⊎◌, String, true, false, string_eq, nat_eq, none,
  some, List, [], ◌∷◌, map, arith, contains, select, length, All, Distinct, find_first, has_prefix,
  append,
}
use scd.Vless.{Skip}
use scd.Xray.{World, Result, ok, err, Handler, outbound, inbound, routing, list}
use scd.Config.{PortRange, Source, Target, candidate_type}
use scd.Selection.{SourceFilters}
use scd.Outbound.{Normalized, Builder}
use scd.Manifest.{Entry, entry_of, Manifest, build}
use scd.Manifest.Filters.{apply_filters}
use scd.Manifest.Built.{build-Counted}
use scd.LabelFilter.{match}
use scd.Manifest.Filtered.{listed, Counted, apply_filters-Counted}
use scd.Topology.{Tunnel, build_source, new_tunnel, capacity}
use scd.Topology.Ports.{build_source-Ports}
use scd.Topology.Spaces.{new_tunnel-Owned}
use scd.Apply.{owns, Report, new_report}
use scd.Apply.Outbounds.Counts
use scd.Apply.Outbounds.Plain.{plain}
use scd.Apply.Tunnels.{inbounds, rules, replace_all, checked, replace_listed}
use scd.Apply.Tunnels.Calls.{within, tunnels-Within}
use scd.Apply.Slots.{Resources}
use scd.Apply.Plan.{Plan, Hashes, topology_plan, plan_for_source, apply}
use scd.Apply.Plan.Applied.{apply-plan_for_source}
use scd.Tests.Selecting.{whole}
use scd.Tests.Applying.{builds, source, meta, xray, none_bad, handler}

abbrev link : String → ℕ → Normalized
link tag line = record {
  kind = "vless";
  profile = "tcp";
  tag = tag;
  line = line;
  raw = "vless://";
  label = "🇩🇪 Berlin";
  country = some (record { emoji = "🇩🇪"; iso2 = "DE"; name_en = "Germany"; name_ru = "Германия" });
  city = "";
  security = "tls";
  flow = "";
  rest = "";
}

abbrev bad_line : Skip
bad_line = record {
  line = 2;
  raw = "x";
  label = none;
  code = "invalid_uri";
  reason = "r";
  details = [];
}

abbrev pub builder : Builder
builder = record {
  build = λ n. record { tag = n.tag; json = n.raw };
  with_tag = λ s tag. record s { tag = tag };
  to_proto = builds;
}

-- Two links of one tag, and a line that does not parse.
abbrev lines : List (Skip ⊎ Normalized)
lines = inr (link "de-1" 1) ∷ inl bad_line ∷ inr (link "de-1" 3) ∷ inr (link "de-2" 4) ∷ []

abbrev manifest : Manifest ℕ
manifest = build builder lines "sub" "now"

build-Counted_example :
    Counted manifest
    × Distinct (map (λ e. e.tag) manifest.entries)
    × (manifest.summary.total_lines ≡ length lines)
    × (manifest.summary.filtered ≡ 0)
    × (length manifest.entries + length manifest.skipped ≡ length lines)
build-Counted_example = build-Counted ℕ builder lines "sub" "now"

abbrev first_entry : Entry ℕ
first_entry = entry_of (link "de-1" 1) (record { tag = "de-1"; json = "vless://" })

abbrev french : SourceFilters
french = record {
  country_allowlist = "FR" ∷ [];
  entry_country_allowlist = [];
  label = record { include = []; exclude = []; include_src = []; exclude_src = [] };
}

none_filtered : manifest.summary.filtered ≡ 0
unfolding build contains
none_filtered = refl

none_by_country : manifest.summary.filtered_by_country ≡ 0
unfolding build contains
none_by_country = refl

none_by_label : manifest.summary.filtered_by_label_regex ≡ 0
unfolding build contains
none_by_label = refl

apply_filters-Counted_example :
    let m' = apply_filters manifest (some french) in
    Counted m'
    × (m'.entries
        ≡ select
            (λ e. listed french.country_allowlist e.country && match french.label e.label)
            manifest.entries)
    × (m'.summary.filtered_by_country
        ≡ length (select (λ e. not (listed french.country_allowlist e.country)) manifest.entries))
    × (m'.summary.filtered_by_label_regex
        ≡ length (
            select
              (λ e. listed french.country_allowlist e.country && not (match french.label e.label))
              manifest.entries))
apply_filters-Counted_example =
    apply_filters-Counted manifest french build-Counted_example.0 none_filtered none_by_country
      none_by_label

abbrev pub ports : PortRange
ports = record { start = 20000; last = 20001 }

abbrev pub german_source : Source
german_source = record {
  id = "de";
  type_name = "vless";
  enabled = true;
  port_range = some ports;
  filters = none;
  max_active = 0;
  selection = none;
  balancer = "";
  dialer_proxy = "";
  depends_on = [];
}

abbrev pub target : Target
target = record {
  address = "127.0.0.1:10085";
  fixed_outbounds = "direct" ∷ [];
  fixed_inbounds = "api" ∷ [];
  fixed_routing = "api" ∷ [];
  vision_udp443_override = false;
  inbound_socks = some "127.0.0.1";
  monitor = record { enabled = false; schedule = ""; has_request = false };
  balancers = [];
  observatory_prefix = "obs-";
}

no_candidates :
    candidate_type german_source.type_name ≡ true → german_source.max_active ≤ capacity ports
unfolding candidate_type
no_candidates h = omega arith

build_source-Ports_example :
    let tunnels = (build_source whole builder manifest german_source target).0 in
    Distinct (map (λ tn. tn.port) tunnels)
    × All (λ tn. (ports.start ≤ tn.port) × (tn.port ≤ ports.last)) tunnels
build_source-Ports_example =
    build_source-Ports whole builder manifest german_source target ports refl no_candidates

abbrev resources : Resources
resources = record {
  inbound_of = λ tn. ok (handler tn.inbound_tag);
  rule_of = λ tn tag. handler tn.route_tag;
}

abbrev pub tunnel : Tunnel
tunnel = new_tunnel builder first_entry "de" target "127.0.0.1" 20000

entry_prefix : has_prefix first_entry.tag (append "de" "-") ≡ true
entry_prefix = refl

new_tunnel-Owned_example :
    (owns source outbound tunnel.outbound_tag_current ≡ true)
    × (owns source outbound tunnel.outbound_without_prefix.tag ≡ true)
    × (owns source inbound tunnel.inbound_tag ≡ true)
    × (owns source routing tunnel.route_tag ≡ true)
new_tunnel-Owned_example =
    new_tunnel-Owned builder first_entry source target "127.0.0.1" 20000 entry_prefix refl

abbrev empty_xray : World (List Handler)
empty_xray = record { server = handler "api" ∷ handler "in-de-9" ∷ []; calls = [] }

tunnels-Within_example :
    All
      (λ c. within inbound ("api" ∷ []) (owns source) c ≡ true)
      (inbounds
        (plain none_bad)
        resources.inbound_of
        ("api" ∷ [])
        (owns source)
        (tunnel ∷ [])
        meta
        empty_xray).1.calls
    × All
        (λ c. within routing ("api" ∷ []) (owns source) c ≡ true)
        (rules
          (plain none_bad)
          resources.rule_of
          ("api" ∷ [])
          (owns source)
          (tunnel ∷ [])
          meta
          empty_xray).1.calls
tunnels-Within_example =
    tunnels-Within (plain none_bad) ("api" ∷ []) (owns source) (tunnel ∷ []) meta empty_xray
      resources.inbound_of resources.rule_of refl

abbrev some_report : Result Report → Report
some_report (ok r) = r
some_report (err e) = new_report inbound meta 0 []

abbrev inbound_result : Result Report
inbound_result =
    (inbounds (plain none_bad) resources.inbound_of ("api" ∷ []) (owns source) (tunnel ∷ []) meta
      empty_xray).0

inbounds_answer : inbound_result ≡ ok (some_report inbound_result)
unfolding inbounds replace_all checked replace_listed find_first contains list new_tunnel
inbounds_answer = refl

abbrev rules_result : Result Report
rules_result =
    (rules (plain none_bad) resources.rule_of ("api" ∷ []) (owns source) (tunnel ∷ []) meta
      empty_xray).0

rules_answer : rules_result ≡ ok (some_report rules_result)
unfolding rules replace_all checked replace_listed find_first contains list new_tunnel
rules_answer = refl

abbrev pub hashes : Hashes
hashes = record { of_outbounds = λ s. "o"; of_inbounds = λ s. "i"; of_rules = λ s. "r" }

abbrev some_plan : Result Plan → Plan
some_plan (ok p) = p
some_plan (err e) = topology_plan hashes outbound "de" []

abbrev german_plan : Plan
german_plan =
    some_plan (plan_for_source whole builder hashes outbound manifest german_source target)

german_planned :
    plan_for_source whole builder hashes outbound manifest german_source target ≡ ok german_plan
unfolding plan_for_source candidate_type
german_planned = refl

apply-plan_for_source_example :
    let r = (apply (plain none_bad) builder.to_proto resources german_plan target meta xray).0 in
    Counts.Counted r × (r.failed ≡ 0 → r.applied_ids ≡ german_plan.managed_ids)
apply-plan_for_source_example =
    apply-plan_for_source whole builder hashes (plain none_bad) resources outbound manifest
      german_source target meta xray german_plan german_planned
