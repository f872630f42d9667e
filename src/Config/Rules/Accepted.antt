-- ===== src/Config/Rules/Accepted.antt =====
-- internal/scd/config/rules.go: checkRules always returns, and what it gives where it reports nothing.
use scd.Prelude.{
  ℕ, suc, String, Bool, Option, true, false, none, some, List, [], ◌∷◌, ◌++◌, ◌≡◌, ◌≢◌, refl, ap,
  ◌∙◌, ◌>>=◌, >>=-some, >>=-returns, if◌then◌else◌, All,
}
use scd.Config.{Subscription, Resources}
use scd.Config.Issues.{Issue, subscription}
use scd.Config.Issues.Reports.{append-nil_parts}
use scd.Config.Sources.{check_sources}
use scd.Config.Sources.Apart.{Separate, check_sources-Separate}
use scd.Config.Cycles.{find_cycles}
use scd.Config.Cycles.Ends.{find_cycles-ends}
use scd.Config.Dependencies.{check_dependencies}
use scd.Config.Dependencies.Ordered.{Chain, check_dependencies-Acyclic, check_dependencies-ends}
use scd.Config.Cross.{cross_subscriptions, check_cross_dependencies}
use scd.Config.Rules.{
  Parsers, App, each_part, check_each, all_parts, check_rules, check_target, check_subscriptions,
  check_runtime, check_resources,
}

abbrev issues_of : Option (List Issue × List Issue) → List Issue
issues_of none = []
issues_of (some r) = r.0

abbrev Returns : Option (List Issue × List Issue) → Type 0
Returns o = (r : List Issue × List Issue) × (o ≡ some r)

if-Returns : (c : Bool) (x y : List Issue × List Issue) → Returns (if c then some x else some y)
if-Returns true x y = (x, refl)
if-Returns false x y = (y, refl)

cross_ends : (subs : List Subscription) → Returns (check_cross_dependencies subs)
unfolding check_cross_dependencies
cross_ends subs =
    let c =
      cross_subscriptions subs 0 subs
        (record { issues = []; warnings = []; order = []; edges = [] }) in
    >>=-returns (find_cycles c.order c.edges) _ (find_cycles-ends c.order c.edges)
      (λ cycles. if-Returns _ _ _)

module _ (parsers : Parsers) where
  check_each-ends :
      (i : ℕ) (subs : List Subscription) (res : Resources) → Returns (check_each parsers i subs res)
  unfolding check_each
  check_each-ends i [] res = (([], []), refl)
  check_each-ends i (s ∷ subs) res =
      >>=-returns (check_dependencies (subscription i) s) _
        (check_dependencies-ends s (subscription i))
        (λ d.
          >>=-returns (check_each parsers (suc i) subs res) _ (check_each-ends (suc i) subs res)
            (λ later. (_, refl)))

  check_rules-ends : (app : App) → Returns (check_rules parsers app)
  unfolding check_rules
  check_rules-ends app =
      >>=-returns (check_each parsers 0 app.subscriptions app.resources) _
        (check_each-ends 0 app.subscriptions app.resources)
        (λ each.
          >>=-returns (check_cross_dependencies app.subscriptions) _ (cross_ends app.subscriptions)
            (λ cross. (_, refl)))

  each_part-nil :
      (i : ℕ) (s : Subscription) (res : Resources) (d later : List Issue × List Issue)
      → (each_part parsers i s res d later).0 ≡ []
      → (d.0 ≡ []) × (later.0 ≡ [])
  unfolding each_part
  each_part-nil i s res d later z =
      append-nil_parts d.0 later.0
        (append-nil_parts (check_target parsers (subscription i) s.target res).0 (d.0 ++ later.0)
          z).1

  all_parts-nil :
      (app : App) (each cross : List Issue × List Issue)
      → (all_parts parsers app each cross).0 ≡ []
      → (check_sources 0 app.subscriptions app.resources ≡ []) × (each.0 ≡ [])
  unfolding all_parts
  all_parts-nil app each cross z =
      let (a, b) = append-nil_parts (check_subscriptions app.subscriptions) _ z in
      let (c, d) = append-nil_parts (check_sources 0 app.subscriptions app.resources) _ b in
      let (e, f) = append-nil_parts (check_runtime parsers app) _ d in
      let (g, h) = append-nil_parts (check_resources parsers app.resources) _ f in
      (c, (append-nil_parts each.0 _ h).0)

  -- What checkDependencies gives for each subscription.
  check_each-Acyclic :
      (i : ℕ) (subs : List Subscription) (res : Resources) (r : List Issue × List Issue)
      → check_each parsers i subs res ≡ some r
      → r.0 ≡ []
      → All (λ sub. (id : String) → ¬ Chain sub id id) subs
  unfolding check_each
  check_each-Acyclic i [] res r e z = tt
  check_each-Acyclic i (s ∷ subs) res r e z =
      let n = subscription i in
      let (d, e1, h1) =
        >>=-some (check_dependencies n s)
          (λ d. check_each parsers (suc i) subs res >>= λ later.
            some (each_part parsers i s res d later))
          e in
      let (later, e2, h2) =
        >>=-some (check_each parsers (suc i) subs res)
          (λ later. some (each_part parsers i s res d later)) h1 in
      let (z1, z2) = each_part-nil i s res d later (ap issues_of h2 ∙ z) in
      (
        check_dependencies-Acyclic s n d.1 (e1 ∙ ap (λ x. some (x, d.1)) z1),
        check_each-Acyclic (suc i) subs res later e2 z2,
      )

  -- checkRules always returns. If it reports nothing, and every source has an id, then in each
  -- subscription the sources share no tag and no port, no fixed tag lies in the namespace of an
  -- enabled source, and no source depends on itself, directly or through others.
  pub check_rules-Accepted :
      (app : App)
      → All (λ sub. All (λ src. src.id ≢ "") sub.sources) app.subscriptions
      → (r : List Issue × List Issue) × (check_rules parsers app ≡ some r)
        × (r.0 ≡ []
            → All Separate app.subscriptions
              × All (λ sub. (id : String) → ¬ Chain sub id id) app.subscriptions)
  unfolding check_rules
  check_rules-Accepted app names =
      let (each, e1) = check_each-ends 0 app.subscriptions app.resources in
      let (cross, e2) = cross_ends app.subscriptions in
      (
        all_parts parsers app each cross,
        rw (e1, e2) refl,
        λ z.
            let (z1, z2) = all_parts-nil app each cross z in
            (
              check_sources-Separate 0 app.subscriptions app.resources names z1,
              check_each-Acyclic 0 app.subscriptions app.resources each e1 z2,
            ),
      )
