-- ===== src/Config/Dependencies/Collected.antt =====
-- internal/scd/config/rules.go: the edges that checkDependencies collects: where it reports nothing,
-- every dependency on a source has its edge.
use scd.Prelude.{
  ℕ, suc, String, true, false, not, ◌&&◌, Option, none, some, List, [], ◌∷◌, ◌++◌, ◌≡◌, ◌≢◌, refl,
  sym, subst, ap, ◌∙◌, inl, inr, ◌==◌, string_eq, if◌then◌else◌, Among, Bool-cases, contains,
  lookup, lookup-insert, ==_refl, ==→eq, ne→==_false,
}
use scd.Config.{Dependency, Source, Subscription}
use scd.Config.Issues.{
  Place, issue, dependency_key, disabled_source, unknown_source, duplicate_dependency,
  depends_on_itself,
}
use scd.Config.Issues.Reports.{append-nil_parts}
use scd.Config.Cycles.{Edges, found, targets}
use scd.Config.Cycles.Ends.{Among-append_left, Among-append_right}
use scd.Config.Dependencies.{
  Found, report, add_edge, source_of, owner_of, cross_dependency, owned, balancer_dependency,
  judged, source_dependency, dependency, dependencies_of, dialer, sources_dependencies,
}
use scd.Config.Dependencies.Grown.{
  append-ne-nil, passed, Grows, Grows-refl, Grows-trans, if-Grows, report-Grows, warn-Grows,
  see-Grows,
}

targets-add_edge :
    (from to a : String) (edges : Edges)
    → targets (add_edge from to edges) a
      ≡ (if from == a then targets edges from ++ to ∷ [] else targets edges a)
unfolding targets add_edge
targets-add_edge from to a edges =
    ap found (lookup-insert from a (found (lookup from edges) ++ to ∷ []) edges)
    ∙ elim (from == a)
        as (λ t.
          found (if t then some (found (lookup from edges) ++ to ∷ []) else lookup a edges)
          ≡ (if t then found (lookup from edges) ++ to ∷ [] else found (lookup a edges))) [
            | true ↦ refl
            | false ↦ refl
          ]

add_edge-keeps :
    (from to a b : String) (edges : Edges)
    → Among b (targets edges a)
    → Among b (targets (add_edge from to edges) a)
add_edge-keeps from to a b edges m =
    subst (Among b) (sym (targets-add_edge from to a edges)) (elim (Bool-cases (from == a)) [
      | inl y ↦ rw y (
          Among-append_left b (targets edges from) (to ∷ [])
            (subst (λ x. Among b (targets edges x)) (sym (==→eq from a y)) m))
      | inr n ↦ rw n m
    ])

add_edge-new : (from to : String) (edges : Edges) → Among to (targets (add_edge from to edges) from)
add_edge-new from to edges =
    subst (Among to) (sym (targets-add_edge from to from edges))
      (rw (==_refl from) (Among-append_right to (targets edges from) (to ∷ []) (inl refl)))

module _ (sub : Subscription) (n : Place) (j : ℕ) (src : Source) (k : ℕ) (d : Dependency) where
  cross-Grows : (f : Found) → Grows f (cross_dependency sub n j src k d f)
  unfolding cross_dependency
  cross-Grows f =
      if-Grows _ (Grows-refl f)
        (see-Grows _ (if-Grows _ (report-Grows _ (Grows-refl f)) (Grows-refl f)))

  owned-Grows : (owner : String) (f : Found) → Grows f (owned sub n j src k d owner f)
  unfolding owned
  owned-Grows owner f =
      if-Grows (owner == src.id) (report-Grows _ (Grows-refl f))
        (if-Grows (not (owner == "")) (report-Grows _ (Grows-refl f)) (Grows-refl f))

  balancer-Grows : (f : Found) → Grows f (balancer_dependency sub n j src k d f)
  unfolding balancer_dependency
  balancer-Grows f =
      if-Grows _ (report-Grows _ (Grows-refl f))
        (warn-Grows _ (see-Grows _ (owned-Grows (owner_of sub.sources d.balancer) f)))

  judged-Grows : (dep : Source) {e f : Found} → Grows e f → Grows e (judged sub n j src k d dep f)
  unfolding judged
  judged-Grows dep g = if-Grows _ g (if-Grows _ (report-Grows _ g) (warn-Grows _ g))

  edge-Grows :
      (f : Found)
      → Grows f (record f { seen = d.source ∷ f.seen; edges = add_edge src.id d.source f.edges })
  edge-Grows f = record { before = λ z. (z, λ a b m. add_edge-keeps src.id d.source a b f.edges m) }

  source-Grows :
      (dep : Option Source) (f : Found) → Grows f (source_dependency sub n j src k d dep f)
  unfolding source_dependency
  source-Grows none f = report-Grows _ (Grows-refl f)
  source-Grows (some dep) f = if-Grows (d.source == src.id) (report-Grows _ (Grows-refl f)) (
      if-Grows (contains f.seen d.source) (report-Grows _ (Grows-refl f)) (
        judged-Grows dep (
          if-Grows (src.enabled && not dep.enabled) (report-Grows _ (edge-Grows f))
            (edge-Grows f))))

  dependency-Grows : (f : Found) → Grows f (dependency sub n j src k d f)
  unfolding dependency
  dependency-Grows f = if-Grows _ (cross-Grows f) (
      if-Grows _ (balancer-Grows f)
        (if-Grows _ (Grows-refl f) (source-Grows (source_of sub.sources d.source) f)))

  -- A plain dependency on a source, with no issue reported: its edge is there.
  abbrev pub Plain : Type 0
  Plain = (d.subscription ≡ "") × (d.balancer ≡ "") × (d.source ≢ "")

  -- What is left of the step once the source is there, is another one, and is new.
  abbrev entered : Found → Found
  entered f = record f { seen = d.source ∷ f.seen; edges = add_edge src.id d.source f.edges }

  abbrev accepted : Source → Found → Found
  accepted dep f = judged sub n j src k d dep (
      if src.enabled && not dep.enabled
      then report (issue n (dependency_key j k "source") (disabled_source d.source) ∷ [])
          (entered f)
      else entered f)

  accepted-Grows : (dep : Source) (f : Found) → Grows (entered f) (accepted dep f)
  accepted-Grows dep f = judged-Grows dep (
      if-Grows (src.enabled && not dep.enabled) (report-Grows _ (Grows-refl (entered f)))
        (Grows-refl (entered f)))

  source_dependency-accepted :
      (dep : Source) (f : Found)
      → (source_dependency sub n j src k d (some dep) f).issues ≡ []
      → source_dependency sub n j src k d (some dep) f ≡ accepted dep f
  unfolding source_dependency
  source_dependency-accepted dep f z =
      let new =
        if contains f.seen d.source
        then report (issue n (dependency_key j k "source") (duplicate_dependency d.source) ∷ []) f
        else accepted dep f in
      let p =
        passed (d.source == src.id) (issue n (dependency_key j k "source") depends_on_itself) f new
          z in
      let q =
        passed (contains f.seen d.source)
          (issue n (dependency_key j k "source") (duplicate_dependency d.source)) f (accepted dep f)
          (subst (λ g. g.issues ≡ []) p z) in
      p ∙ q

  source-adds :
      (dep : Option Source) (f : Found)
      → (source_dependency sub n j src k d dep f).issues ≡ []
      → Among d.source (targets (source_dependency sub n j src k d dep f).edges src.id)
  source-adds none f z = absurd (
      append-ne-nil f.issues (issue n (dependency_key j k "source") (unknown_source d.source))
        (unfold source_dependency in z))
  source-adds (some dep) f z =
      let e = source_dependency-accepted dep f z in
      subst (λ g. Among d.source (targets g.edges src.id)) (sym e)
        (((accepted-Grows dep f).before (subst (λ g. g.issues ≡ []) e z)).1 src.id d.source
          (add_edge-new src.id d.source f.edges))

  dependency-plain :
      (f : Found)
      → Plain
      → dependency sub n j src k d f
        ≡ source_dependency sub n j src k d (source_of sub.sources d.source) f
  unfolding dependency
  dependency-plain f (a, b, c) =
      rw
        (
          (string_eq.beq_iff d.subscription "").1 a,
          (string_eq.beq_iff d.balancer "").1 b,
          ne→==_false d.source "" c,
        )
        refl

  dependency-adds :
      (f : Found)
      → Plain
      → (dependency sub n j src k d f).issues ≡ []
      → Among d.source (targets (dependency sub n j src k d f).edges src.id)
  dependency-adds f p z =
      let e = dependency-plain f p in
      subst (λ g. Among d.source (targets g.edges src.id)) (sym e)
        (source-adds (source_of sub.sources d.source) f (subst (λ g. g.issues ≡ []) e z))

module _ (sub : Subscription) (n : Place) where
  dependencies-Grows :
      (j : ℕ) (src : Source) (k : ℕ) (ds : List Dependency) (f : Found)
      → Grows f (dependencies_of sub n j src k ds f)
  unfolding dependencies_of
  dependencies-Grows j src k [] f = Grows-refl f
  dependencies-Grows j src k (d ∷ ds) f =
      Grows-trans (dependency-Grows sub n j src k d f) (dependencies-Grows j src (suc k) ds _)

  dialer-Grows : (j : ℕ) (src : Source) (f : Found) → Grows f (dialer sub n j src f)
  unfolding dialer
  dialer-Grows j src f = record { before = λ z. ((append-nil_parts f.issues _ z).0, λ a b m. m) }

  dependencies-add :
      (j : ℕ) (src : Source) (k : ℕ) (ds : List Dependency) (d : Dependency) (f : Found)
      → Among d ds
      → Plain sub n j src k d
      → (dependencies_of sub n j src k ds f).issues ≡ []
      → Among d.source (targets (dependencies_of sub n j src k ds f).edges src.id)
  unfolding dependencies_of
  dependencies-add j src k [] d f m p z = elim m [ ]
  dependencies-add j src k (x ∷ ds) d f (inl e) p z =
      let (y, keeps) =
        (dependencies-Grows j src (suc k) ds (dependency sub n j src k x f)).before z in
      keeps src.id d.source (
        subst (λ c. Among c.source (targets (dependency sub n j src k x f).edges src.id)) (sym e)
          (dependency-adds sub n j src k x f (subst (Plain sub n j src k) e p) y))
  dependencies-add j src k (x ∷ ds) d f (inr m) p z =
      dependencies-add j src (suc k) ds d (dependency sub n j src k x f) m p z

  sources-Grows :
      (j : ℕ) (xs : List Source) (f : Found) → Grows f (sources_dependencies sub n j xs f)
  unfolding sources_dependencies
  sources-Grows j [] f = Grows-refl f
  sources-Grows j (src ∷ rest) f =
      Grows-trans (dialer-Grows j src f)
        (Grows-trans (dependencies-Grows j src 0 src.depends_on _) (sources-Grows (suc j) rest _))

  pub sources-add :
      (j : ℕ) (xs : List Source) (src : Source) (d : Dependency) (f : Found)
      → Among src xs
      → Among d src.depends_on
      → Plain sub n j src 0 d
      → (sources_dependencies sub n j xs f).issues ≡ []
      → Among d.source (targets (sources_dependencies sub n j xs f).edges src.id)
  unfolding sources_dependencies
  sources-add j [] src d f m a p z = elim m [ ]
  sources-add j (x ∷ rest) src d f (inl e) a p z =
      let g = dependencies_of sub n j x 0 x.depends_on (dialer sub n j x f) in
      let (y, keeps) = (sources-Grows (suc j) rest g).before z in
      subst (λ s. Among d.source (targets (sources_dependencies sub n (suc j) rest g).edges s.id))
        (sym e)
        (keeps x.id d.source (
          dependencies-add j x 0 x.depends_on d (dialer sub n j x f)
            (subst (λ s. Among d s.depends_on) e a) p y))
  sources-add j (x ∷ rest) src d f (inr m) a p z = sources-add (suc j) rest src d _ m a p z
