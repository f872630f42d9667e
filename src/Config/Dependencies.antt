-- ===== src/Config/Dependencies.antt =====
-- internal/scd/config/rules.go: checkDependencies, the rules on balancer, dialerProxy and dependsOn
-- within one subscription.
pub mod Grown
pub mod Collected
pub mod Ordered
use scd.Prelude.{
  ℕ, zero, suc, String, Bool, true, false, not, ◌&&◌, ◌||◌, Option, none, some, List, [], ◌∷◌, ◌++◌,
  ◌==◌, string_eq, if◌then◌else◌, ◌>>=◌, contains, find_first, find_last, is_empty, lookup, insert,
  map,
}
use scd.Config.{
  Dependency, Source, Balancer, BalancerSelection, Target, Subscription, dependency_name,
}
use scd.Config.Issues.{
  Issue, Key, Place, Message, issue, when, key, source_key, dependency_key, balancer_key, not_fixed,
  masque_vision, duplicate_dependency, own_balancer, owned_balancer, always_healthy, unknown_source,
  depends_on_itself, disabled_source, no_balancer, cycle, shared_balancer,
}
use scd.Config.Cycles.{Edges, targets, find_cycles, position, dependencies}

abbrev pub health_balancer : String
health_balancer = "balancer"

-- byID[id], the first source with this id.
unfoldable pub source_of : List Source → String → Option Source
source_of sources id = find_first (λ s. s.id == id) sources

abbrev id_of : Option Source → String
id_of none = ""
id_of (some s) = s.id

-- byBalancer[tag], the id of the first source of this balancer, or "".
unfoldable pub owner_of : List Source → String → String
owner_of sources tag = id_of (find_first (λ s. not (s.balancer == "") && s.balancer == tag) sources)

abbrev pub is_selected : Option BalancerSelection → Bool
is_selected none = false
is_selected (some s) = true

abbrev strategy_in : Option BalancerSelection → String
strategy_in none = ""
strategy_in (some s) = s.strategy

abbrev strategy_at : Option Balancer → String
strategy_at none = ""
strategy_at (some b) = strategy_in b.selection

-- strategy[tag]: the map is built by overwriting.
unfoldable pub strategy_of : List Balancer → String → String
strategy_of balancers tag =
    strategy_at (find_last (λ b. b.tag == tag && is_selected b.selection) balancers)

abbrev pub selects_all : String → Bool
selects_all st = st == "random" || st == "roundRobin"

unfoldable pub health_warning : Place → ℕ → ℕ → Dependency → String → String → List Issue
health_warning n j k d balancer st =
    when (d.health == health_balancer && selects_all st)
      (issue n (dependency_key j k "health") (always_healthy balancer st))

-- What the loop over dependsOn changes: the issues, the warnings, the names seen and the edges.
pub record Found : Type 0 where
  pub issues : List Issue
  pub warnings : List Issue
  pub seen : List String
  pub edges : Edges

abbrev pub report : List Issue → Found → Found
report is f = record f { issues = f.issues ++ is }

abbrev pub warn : List Issue → Found → Found
warn is f = record f { warnings = f.warnings ++ is }

abbrev pub see : String → Found → Found
see name f = record f { seen = name ∷ f.seen }

-- edges[from] = append(edges[from], to)
unfoldable pub add_edge : String → String → Edges → Edges
add_edge from to edges = insert from (targets edges from ++ to ∷ []) edges

module _ (sub : Subscription) (n : Place) (j : ℕ) (src : Source) (k : ℕ) (d : Dependency) where
  abbrev at : String → Message → List Issue
  at name m = issue n (dependency_key j k name) m ∷ []

  -- A balancer of another subscription.
  unfoldable pub cross_dependency : Found → Found
  cross_dependency f =
      if d.balancer == ""
      then f
      else see (dependency_name d) (
          if contains f.seen (dependency_name d)
          then report (at "balancer" (duplicate_dependency (dependency_name d))) f
          else f)

  -- The balancer has an owner among the sources.
  unfoldable pub owned : String → Found → Found
  owned owner f =
      if owner == src.id
      then report (at "balancer" own_balancer) f
      else if not (owner == "")
      then report (at "balancer" (owned_balancer d.balancer owner)) f
      else f

  -- A balancer of the same target.
  unfoldable pub balancer_dependency : Found → Found
  unfolding health_warning owner_of strategy_of owned
  balancer_dependency f =
      if contains f.seen (dependency_name d)
      then report (at "balancer" (duplicate_dependency (dependency_name d))) f
      else warn (health_warning n j k d d.balancer (strategy_of sub.target.balancers d.balancer))
          (see (dependency_name d) (owned (owner_of sub.sources d.balancer) f))

  -- The health of a source that is judged by its balancer.
  unfoldable pub judged : Source → Found → Found
  judged dep f =
      if not (d.health == health_balancer)
      then f
      else if dep.balancer == ""
      then report (at "health" (no_balancer d.source)) f
      else warn
          (health_warning n j k d dep.balancer (strategy_of sub.target.balancers dep.balancer)) f

  unfoldable pub source_dependency : Option Source → Found → Found
  unfolding judged add_edge
  source_dependency none f = report (at "source" (unknown_source d.source)) f
  source_dependency (some dep) f =
      if d.source == src.id
      then report (at "source" depends_on_itself) f
      else if contains f.seen d.source
      then report (at "source" (duplicate_dependency d.source)) f
      else let g = record f {
        seen = d.source ∷ f.seen;
        edges = add_edge src.id d.source f.edges;
      } in
        judged dep (
          if src.enabled && not dep.enabled
          then report (at "source" (disabled_source d.source)) g
          else g)

  -- One pass of the loop over dependsOn.
  unfoldable pub dependency : Found → Found
  unfolding cross_dependency balancer_dependency source_dependency source_of
  dependency f =
      if not (d.subscription == "")
      then cross_dependency f
      else if not (d.balancer == "")
      then balancer_dependency f
      else if d.source == ""
      then f
      else source_dependency (source_of sub.sources d.source) f

unfoldable pub dependencies_of :
    Subscription → Place → ℕ → Source → ℕ → List Dependency → Found → Found
dependencies_of sub n j src k [] f = f
dependencies_of sub n j src k (d ∷ ds) f =
    dependencies_of sub n j src (suc k) ds (dependency sub n j src k d f)

-- dialerProxy, and an empty set of names for the dependencies of the source.
unfoldable pub dialer : Subscription → Place → ℕ → Source → Found → Found
dialer sub n j src f =
    let is =
      when
        (not (src.dialer_proxy == "") && not (contains sub.target.fixed_outbounds src.dialer_proxy))
        (issue n (source_key j "dialerProxy") not_fixed) in
    let ws =
      when
        (not (src.dialer_proxy == "")
          && (src.enabled && (src.type_name == "masque" && not sub.target.vision_udp443_override)))
        (issue n (source_key j "dialerProxy") masque_vision) in
    record f { issues = f.issues ++ is; warnings = f.warnings ++ ws; seen = [] }

unfoldable pub sources_dependencies : Subscription → Place → ℕ → List Source → Found → Found
unfolding dialer
sources_dependencies sub n j [] f = f
sources_dependencies sub n j (src ∷ rest) f =
    sources_dependencies sub n (suc j) rest
      (dependencies_of sub n j src 0 src.depends_on (dialer sub n j src f))

abbrev pub nothing_found : Found
nothing_found = record { issues = []; warnings = []; seen = []; edges = [] }

abbrev first_of : List String → String
first_of [] = ""
first_of (x ∷ xs) = x

-- checkCycles: one issue for each cycle, at its first source, and the ids on a cycle.
unfoldable pub cycle_issues : Place → List String → List (List String) → List Issue
cycle_issues n order [] = []
cycle_issues n order (c ∷ cs) =
    issue n (source_key (position 0 order (first_of c)) "dependsOn") (cycle (c ++ first_of c ∷ []))
    ∷ cycle_issues n order cs

unfoldable pub on_cycle : List (List String) → String → Bool
on_cycle [] id = false
on_cycle (c ∷ cs) id = contains c id || on_cycle cs id

abbrev balancer_in : Option Source → String
balancer_in none = ""
balancer_in (some dep) = dep.balancer

-- The transitive dependencies that have the balancer of the source itself.
unfoldable pub shared_issues : Subscription → Place → ℕ → Source → List String → List Issue
unfolding source_of
shared_issues sub n j src [] = []
shared_issues sub n j src (id ∷ ids) =
    when (balancer_in (source_of sub.sources id) == src.balancer)
      (issue n (source_key j "balancer") (shared_balancer src.balancer id))
    ++ shared_issues sub n j src ids

unfoldable pub balancers_issues :
    Subscription → Place → List (List String) → Edges → ℕ → List Source → Option (List Issue)
unfolding on_cycle dependencies shared_issues
balancers_issues sub n cycles edges j [] = some []
balancers_issues sub n cycles edges j (src ∷ rest) = do
  ids ← if src.balancer == "" || on_cycle cycles src.id then some [] else dependencies src.id edges
  more ← balancers_issues sub n cycles edges (suc j) rest
  some (shared_issues sub n j src ids ++ more)

-- checkDependencies: the issues and the warnings.
unfoldable pub check_dependencies : Place → Subscription → Option (List Issue × List Issue)
unfolding sources_dependencies balancers_issues cycle_issues find_cycles
check_dependencies n sub = do
  let f = sources_dependencies sub n 0 sub.sources nothing_found
  let order = map (λ s. s.id) sub.sources
  cycles ← find_cycles order f.edges
  shared ← balancers_issues sub n cycles f.edges 0 sub.sources
  some (f.issues ++ (cycle_issues n order cycles ++ shared), f.warnings)
