-- ===== src/Tests/Configuring.antt =====
-- The rules of the config (internal/scd/config/rules.go) at concrete inputs.
use scd.Prelude.{
  ◌≡◌, ◌≢◌, refl, String, true, false, string_eq, ◌==◌, some, List, [], ◌∷◌, Among, All,
  ==_false→ne, lookup, contains, insert, find_first, find_last, any, select, decimal,
}
use scd.Config.{Source, Subscription, Dependency, candidate_type, dependency_name}
use scd.Config.Issues.{Issue, issue, subscription, source_key, overlapping_ids, cycle}
use scd.Config.Sources.{
  valid_source_id, check_sources, ids_issues, id_issues, clashes_all, clashes, check_target_sources,
  target_source_issues, namespace_issues, subscription_issues,
}
use scd.Config.Sources.Apart.{Separate}
use scd.Config.Cycles.{
  Edges, find_cycles, dependencies, visit_roots, root, visit, follow_all, targets, set_mark, follow,
  note_cycle, walk_all,
}
use scd.Config.Dependencies.{dependencies_of, dependency}
use scd.Config.Cross.{uses_subscription, cross_dependencies, node}
use scd.Config.Cycles.Topological.{Walk}
use scd.Config.Cycles.Clear.{find_cycles_complete}
use scd.Config.Dependencies.Ordered.{Chain}
use scd.Config.Rules.{Parsers, App, check_rules}
use scd.Config.Rules.Accepted.{check_rules-Accepted}
use scd.Tests.Planning.{german_source, target}

abbrev order : List String
order = "a" ∷ "b" ∷ "c" ∷ []

abbrev loop : Edges
loop = ("c", "b" ∷ []) ∷ ("b", "a" ∷ "c" ∷ []) ∷ []

loop_found : find_cycles order loop ≡ some (("b" ∷ "c" ∷ []) ∷ [])
unfolding find_cycles visit_roots root visit follow_all targets lookup set_mark follow note_cycle
    contains
loop_found = refl

all_found : dependencies "c" loop ≡ some ("b" ∷ "a" ∷ [])
unfolding dependencies walk_all targets lookup contains
all_found = refl

find_cycles_complete_example :
    (cycles : List (List String)) × (find_cycles order loop ≡ some cycles)
    × (((v : String) → ¬ Walk loop v v) → cycles ≡ [])
    × (cycles ≡ [] → (v : String) → Among v order → ¬ Walk loop v v)
find_cycles_complete_example = find_cycles_complete order loop

abbrev on_german : Dependency
on_german = record { source = "de"; subscription = ""; balancer = ""; health = "" }

abbrev french_source : Source
french_source = record german_source {
  id = "fr";
  port_range = some (record { start = 20002; last = 20003 });
  depends_on = on_german ∷ [];
}

abbrev whole_subscription : Subscription
whole_subscription = record {
  id = "main";
  enabled = true;
  sources = german_source ∷ french_source ∷ [];
  target = target;
}

abbrev parsers : Parsers
parsers = record { schedule = λ s. true; ip = λ s. s == "127.0.0.1"; listen = λ s. true }

abbrev app : App
app = record {
  subscriptions = whole_subscription ∷ [];
  mode = "once";
  schedule = "";
  resources = record { outbounds = true; inbounds = true; routing = true };
  status_server = record { enabled = false; listen = "" };
}

accepted : check_rules parsers app ≡ some ([], [])
unfolding check_rules visit_roots root visit follow_all targets lookup set_mark follow note_cycle
    contains walk_all insert ids_issues id_issues clashes_all clashes check_target_sources
    target_source_issues namespace_issues subscription_issues valid_source_id dependencies_of
    dependency find_first find_last any select uses_subscription candidate_type dependency_name
    cross_dependencies node decimal
accepted = refl

names : All (λ sub. All (λ src. src.id ≢ "") sub.sources) app.subscriptions
names = ((==_false→ne "de" "" refl, (==_false→ne "fr" "" refl, tt)), tt)

check_rules-Accepted_example :
    (r : List Issue × List Issue) × (check_rules parsers app ≡ some r)
    × (r.0 ≡ []
        → All Separate app.subscriptions
          × All (λ sub. (id : String) → ¬ Chain sub id id) app.subscriptions)
check_rules-Accepted_example = check_rules-Accepted parsers app names

-- A source that depends on itself through another one, and an id that overlaps.
abbrev on_french : Dependency
on_french = record { source = "fr"; subscription = ""; balancer = ""; health = "" }

cyclic_refused :
    check_rules parsers (record app {
      subscriptions =
          record whole_subscription {
            sources = record german_source { depends_on = on_french ∷ [] } ∷ french_source ∷ [];
          }
          ∷ [];
    })
    ≡ some (
      issue (subscription 0) (source_key 0 "dependsOn") (cycle ("de" ∷ "fr" ∷ "de" ∷ [])) ∷ [],
      [],
    )
unfolding check_rules visit_roots root visit follow_all targets lookup set_mark follow note_cycle
    contains walk_all insert ids_issues id_issues clashes_all clashes check_target_sources
    target_source_issues namespace_issues subscription_issues valid_source_id dependencies_of
    dependency find_first find_last any select uses_subscription candidate_type dependency_name
    cross_dependencies node decimal
cyclic_refused = refl

overlap_refused :
    check_sources 0
      (record whole_subscription {
        sources = german_source ∷ record french_source { id = "de-2" } ∷ [];
      }
        ∷ [])
      app.resources
    ≡ issue (subscription 0) (source_key 1 "id") (overlapping_ids "de-2" "de") ∷ []
unfolding check_sources visit_roots root visit follow_all targets lookup set_mark follow note_cycle
    contains walk_all insert ids_issues id_issues clashes_all clashes check_target_sources
    target_source_issues namespace_issues subscription_issues valid_source_id dependencies_of
    dependency find_first find_last any select uses_subscription candidate_type dependency_name
    cross_dependencies node decimal
overlap_refused = refl

ids_checked : (valid_source_id "de-2" ≡ true) × (valid_source_id "de-" ≡ false)
unfolding valid_source_id
ids_checked = (refl, refl)
