-- ===== src/Config/Cross.antt =====
-- internal/scd/config/rules.go: checkCrossDependencies, the dependencies on balancers of other
-- subscriptions.
use scd.Prelude.{
  ℕ, suc, String, Bool, not, ◌&&◌, Option, none, some, List, [], ◌∷◌, ◌++◌, ◌==◌, string_eq, nat_eq,
  if◌then◌else◌, ◌>>=◌, any, select, length, lookup, append, decimal, ltb, map,
}
use scd.Config.{Dependency, Source, Balancer, BalancerSelection, Subscription, find_balancer}
use scd.Config.Issues.{
  Issue, Message, issue, when, source_key, dependency_key, subscription, own_subscription,
  unknown_subscription, not_unique, disabled_subscription, not_a_balancer, not_selected,
  always_healthy, cross_cycle,
}
use scd.Config.Cycles.{Edges, find_cycles}
use scd.Config.Dependencies.{add_edge, selects_all, health_balancer}

-- The node "i/j" of the j-th source of the i-th subscription.
unfoldable pub node : ℕ → ℕ → String
node i j = append (decimal i) (append "/" (decimal j))

-- The place of the first element that passes the test.
unfoldable pub index_of {ℓ} : {A : Type ℓ} → (A → Bool) → ℕ → List A → Option (ℕ × A)
index_of p i [] = none
index_of p i (x ∷ xs) = let rest = index_of p (suc i) xs in if p x then some (i, x) else rest

-- What the loops change: the issues, the warnings, the order of the nodes and the edges.
pub record Cross : Type 0 where
  pub issues : List Issue
  pub warnings : List Issue
  pub order : List String
  pub edges : Edges

unfoldable pub uses_subscription : List Source → Bool
uses_subscription sources =
    any (λ src. any (λ d. not (d.subscription == "")) src.depends_on) sources

module _ (subs : List Subscription) (i : ℕ) (sub : Subscription) (j : ℕ) (src : Source) where
  -- An edge within the subscription, to the first source of this id.
  unfoldable pub own_edge : Dependency → Option (ℕ × Source) → Cross → Cross
  unfolding add_edge
  own_edge d none c = c
  own_edge d (some (t, dep)) c =
      if not (d.source == "") && not (d.source == src.id)
      then record c { edges = add_edge (node i j) (node i t) c.edges }
      else c

  -- An edge to each source of the other subscription that has this balancer.
  unfoldable pub balancer_edges : String → ℕ → ℕ → List Source → Cross → Cross
  unfolding add_edge
  balancer_edges tag oi t [] c = c
  balancer_edges tag oi t (o ∷ rest) c = balancer_edges tag oi (suc t) rest (
      if o.balancer == tag then record c { edges = add_edge (node i j) (node oi t) c.edges } else c)

  unfoldable pub selection_issues :
      ℕ → Dependency → Option BalancerSelection → List Issue × List Issue
  selection_issues k d none = (
    issue (subscription i) (dependency_key j k "balancer") (not_selected d.balancer d.subscription)
        ∷ [],
    [],
  )
  selection_issues k d (some s) =
      if not s.enabled
      then (
        issue (subscription i) (dependency_key j k "balancer")
              (not_selected d.balancer d.subscription)
            ∷ [],
        [],
      )
      else (
        [],
        when (d.health == health_balancer && selects_all s.strategy) (
            issue (subscription i) (dependency_key j k "health")
              (always_healthy d.balancer s.strategy)),
      )

  unfoldable pub balancer_issues : ℕ → Dependency → Option Balancer → List Issue × List Issue
  unfolding selection_issues
  balancer_issues k d none = (
    issue (subscription i) (dependency_key j k "balancer")
          (not_a_balancer d.balancer d.subscription)
        ∷ [],
    [],
  )
  balancer_issues k d (some b) = selection_issues k d b.selection

  -- The subscription is there, once.
  unfoldable pub other_dependency : ℕ → Dependency → Option (ℕ × Subscription) → Cross → Cross
  unfolding balancer_edges balancer_issues find_balancer
  other_dependency k d none c = c
  other_dependency k d (some (oi, other)) c =
      let disabled = when (src.enabled && (sub.enabled && not other.enabled)) (
        issue (subscription i) (dependency_key j k "subscription")
          (disabled_subscription d.subscription)) in
      let (is, ws) = balancer_issues k d (find_balancer subs d.subscription d.balancer) in
      let c' = balancer_edges d.balancer oi 0 other.sources c in
      record c' { issues = c'.issues ++ (disabled ++ is); warnings = c'.warnings ++ ws }

  unfoldable pub cross_dependency : ℕ → Dependency → Cross → Cross
  unfolding own_edge other_dependency index_of
  cross_dependency k d c =
      let refuse = λ (m : Message). record c {
        issues = c.issues ++ issue (subscription i) (dependency_key j k "subscription") m ∷ [];
      } in
      let count = length (select (λ s. s.id == d.subscription) subs) in
      if d.subscription == ""
      then own_edge d (index_of (λ s. s.id == d.source) 0 sub.sources) c
      else if d.balancer == ""
      then c
      else if d.subscription == sub.id
      then refuse own_subscription
      else if count == 0
      then refuse (unknown_subscription d.subscription)
      else if ltb 1 count
      then refuse (not_unique d.subscription)
      else other_dependency k d (index_of (λ s. s.id == d.subscription) 0 subs) c

  unfoldable pub cross_dependencies : ℕ → List Dependency → Cross → Cross
  unfolding cross_dependency
  cross_dependencies k [] c = c
  cross_dependencies k (d ∷ ds) c = cross_dependencies (suc k) ds (cross_dependency k d c)

unfoldable pub cross_sources :
    List Subscription → ℕ → Subscription → ℕ → List Source → Cross → Cross
cross_sources subs i sub j [] c = c
cross_sources subs i sub j (src ∷ rest) c = cross_sources subs i sub (suc j) rest (
    cross_dependencies subs i sub j src 0 src.depends_on
      (record c { order = c.order ++ node i j ∷ [] }))

unfoldable pub cross_subscriptions : List Subscription → ℕ → List Subscription → Cross → Cross
cross_subscriptions subs i [] c = c
cross_subscriptions subs i (sub ∷ rest) c =
    cross_subscriptions subs (suc i) rest (cross_sources subs i sub 0 sub.sources c)

-- pos, with the name of each source: subs[i].ID/subs[i].Sources[j].ID.
unfoldable pub source_places : ℕ → ℕ → Subscription → List Source → List (String × (ℕ × ℕ × String))
source_places i j sub [] = []
source_places i j sub (src ∷ rest) =
    (node i j, (i, j, append sub.id (append "/" src.id))) ∷ source_places i (suc j) sub rest

unfoldable pub places : ℕ → List Subscription → List (String × (ℕ × ℕ × String))
unfolding source_places
places i [] = []
places i (sub ∷ subs) = source_places i 0 sub sub.sources ++ places (suc i) subs

abbrev placed : Option (ℕ × ℕ × String) → ℕ × ℕ × String
placed none = (0, 0, "")
placed (some p) = p

-- A cycle that spans two or more subscriptions.
unfoldable pub cross_cycle_issue : List (ℕ × ℕ × String) → List Issue
cross_cycle_issue [] = []
cross_cycle_issue ((i, j, name) ∷ rest) = when (any (λ p. not (p.0 == i)) rest) (
    issue (subscription i) (source_key j "dependsOn")
      (cross_cycle (name ∷ (map (λ p. p.2) rest ++ name ∷ []))))

unfoldable pub cross_cycle_issues :
    List (String × (ℕ × ℕ × String)) → List (List String) → List Issue
unfolding cross_cycle_issue
cross_cycle_issues pos [] = []
cross_cycle_issues pos (c ∷ cs) =
    cross_cycle_issue (map (λ id. placed (lookup id pos)) c) ++ cross_cycle_issues pos cs

-- checkCrossDependencies: the issues and the warnings.
unfoldable pub check_cross_dependencies : List Subscription → Option (List Issue × List Issue)
unfolding uses_subscription cross_subscriptions cross_sources places cross_cycle_issues find_cycles
check_cross_dependencies subs = do
  let c =
      cross_subscriptions subs 0 subs
        (record { issues = []; warnings = []; order = []; edges = [] })
  cycles ← find_cycles c.order c.edges
  if not (any (λ s. uses_subscription s.sources) subs)
      then some ([], [])
      else some (c.issues ++ cross_cycle_issues (places 0 subs) cycles, c.warnings)
