-- ===== src/Config/Dependencies/Ordered.antt =====
-- internal/scd/config/rules.go: what checkDependencies gives: the dependencies of a subscription that
-- it accepts can be followed to an end.
use scd.Prelude.{
  ℕ, suc, String, ◌||◌, Option, none, some, List, [], ◌∷◌, ◌++◌, ◌≡◌, ◌≢◌, refl, sym, subst, ap,
  ◌∙◌, inl, inr, ◌==◌, string_eq, ◌>>=◌, >>=-some, Among, map, Bool-cases,
}
use scd.Config.{Dependency, Source, Subscription}
use scd.Config.Issues.{Issue, Place}
use scd.Config.Issues.Reports.{append-nil_parts}
use scd.Config.Cycles.{Edges, targets, find_cycles}
use scd.Config.Cycles.Ends.{find_cycles-ends}
use scd.Config.Cycles.Walks.{dependencies-ends}
use scd.Config.Cycles.Acyclic.{find_cycles-Acyclic}
use scd.Config.Cycles.Topological.{Walk, edge, step}
use scd.Config.Dependencies.Collected.{sources-add}
use scd.Config.Dependencies.{
  Found, sources_dependencies, nothing_found, on_cycle, cycle_issues, shared_issues,
  balancers_issues, check_dependencies,
}

abbrev first_part : Option (List Issue × List Issue) → List Issue
first_part none = []
first_part (some r) = r.0

-- A source of this id depends on the source of that one, in the config itself.
abbrev pub DependsOn : Subscription → String → String → Type 0
DependsOn sub a b =
    (src : Source) × (d : Dependency) × Among src sub.sources
    × (src.id ≡ a)
    × Among d src.depends_on
    × (d.subscription ≡ "")
    × (d.balancer ≡ "")
    × (d.source ≡ b)
    × (b ≢ "")

-- One dependency after another.
pub data Chain (sub : Subscription) (a : String) : String → Type 0 where
  one : {b : String} → DependsOn sub a b → Chain sub a b
  more : {b c : String} → Chain sub a b → DependsOn sub b c → Chain sub a c

Among-ids : (src : Source) (xs : List Source) → Among src xs → Among src.id (map (λ s. s.id) xs)
Among-ids src [] m = elim m [ ]
Among-ids src (x ∷ xs) (inl e) = inl (ap (λ s. s.id) e)
Among-ids src (x ∷ xs) (inr m) = inr (Among-ids src xs m)

cycle_issues-nil :
    (n : Place) (order : List String) (cycles : List (List String))
    → cycle_issues n order cycles ≡ []
    → cycles ≡ []
unfolding cycle_issues
cycle_issues-nil n order [] z = refl
cycle_issues-nil n order (c ∷ cs) z = cc

module _ (sub : Subscription) (n : Place) where
  abbrev collected : Found
  collected = sources_dependencies sub n 0 sub.sources nothing_found

  DependsOn-edge :
      (a b : String)
      → collected.issues ≡ []
      → DependsOn sub a b
      → Among b (targets collected.edges a)
  DependsOn-edge a b z (src, d, m, ea, md, s, t, eb, ne) =
      subst (λ y. Among y (targets collected.edges a)) eb
        (subst (λ x. Among d.source (targets collected.edges x)) ea
          (sources-add sub n 0 sub.sources src d nothing_found m md (s, t, λ e. ne (sym eb ∙ e)) z))

  Chain-Walk :
      (a : String) {b : String} → collected.issues ≡ [] → Chain sub a b → Walk collected.edges a b
  Chain-Walk a z (one {b} d) = edge (DependsOn-edge a b z d)
  Chain-Walk a z (more {b} {c} w d) = step (Chain-Walk a z w) (DependsOn-edge b c z d)

  Chain-first : (a : String) {b : String} → Chain sub a b → Among a (map (λ s. s.id) sub.sources)
  Chain-first a (one (src, d, m, e, _, _, _, _, _)) =
      subst (λ x. Among x (map (λ s. s.id) sub.sources)) e (Among-ids src sub.sources m)
  Chain-first a (more w d) = Chain-first a w

  -- If checkDependencies reports nothing, then no source of the subscription depends on itself,
  -- directly or through other sources, whatever the ids and the order of the sources.
  pub check_dependencies-Acyclic :
      (warnings : List Issue)
      → check_dependencies n sub ≡ some ([], warnings)
      → (id : String) → ¬ Chain sub id id
  unfolding check_dependencies
  check_dependencies-Acyclic warnings h id w =
      let order = map (λ s. s.id) sub.sources in
      let (cycles, e1, h1) =
        >>=-some (find_cycles order collected.edges)
          (λ cycles. balancers_issues sub n cycles collected.edges 0 sub.sources >>= λ shared.
            some (collected.issues ++ (cycle_issues n order cycles ++ shared), collected.warnings))
          h in
      let (shared, e2, h2) =
        >>=-some (balancers_issues sub n cycles collected.edges 0 sub.sources)
          (λ shared.
            some (collected.issues ++ (cycle_issues n order cycles ++ shared), collected.warnings))
          h1 in
      let (z, z') = append-nil_parts collected.issues _ (ap first_part h2) in
      let acyclic =
        cycle_issues-nil n order cycles (append-nil_parts (cycle_issues n order cycles) _ z').0 in
      find_cycles-Acyclic order collected.edges (e1 ∙ ap (λ c. some c) acyclic) id
        (Chain-first id w) (Chain-Walk id z w)

  balancers_issues-ends :
      (cycles : List (List String)) (edges : Edges) (j : ℕ) (xs : List Source)
      → (is : List Issue) × (balancers_issues sub n cycles edges j xs ≡ some is)
  unfolding balancers_issues
  balancers_issues-ends cycles edges j [] = ([], refl)
  balancers_issues-ends cycles edges j (src ∷ rest) =
      let (later, e) = balancers_issues-ends cycles edges (suc j) rest in
      let (ids, d) = dependencies-ends src.id edges in
      elim (Bool-cases (src.balancer == "" || on_cycle cycles src.id)) [
        | inl y ↦ (shared_issues sub n j src [] ++ later, rw (y, e) refl)
        | inr off ↦ (shared_issues sub n j src ids ++ later, rw (off, d, e) refl)
      ]

  -- checkDependencies always returns.
  pub check_dependencies-ends : (r : List Issue × List Issue) × (check_dependencies n sub ≡ some r)
  unfolding check_dependencies
  check_dependencies-ends =
      let order = map (λ s. s.id) sub.sources in
      let (cycles, e) = find_cycles-ends order collected.edges in
      let (shared, e') = balancers_issues-ends cycles collected.edges 0 sub.sources in
      (
        (collected.issues ++ (cycle_issues n order cycles ++ shared), collected.warnings),
        rw (e, e') refl,
      )
