-- ===== src/Config/Cycles/Clear.antt =====
-- internal/scd/config/rules.go: findCycles reports no cycle where there is none. The nodes that are
-- marked active all lead to the node that is visited.
use scd.Prelude.{
  ℕ, zero, suc, String, Option, some, List, [], ◌∷◌, ◌++◌, ◌≡◌, ◌≢◌, refl, ◌⊎◌, inl, inr, >>=-some,
  length, Among, sym, subst, ◌∙◌, ap,
}
use scd.Config.Cycles.{
  Edges, targets, Mark, unseen, active, done, Search, set_mark, follow, follow_all, visit, root,
  visit_roots, no_marks, search_from, find_cycles, nodes,
}
use scd.Config.Cycles.Ends.{find_cycles-ends}
use scd.Config.Cycles.Acyclic.{find_cycles-Acyclic, some_inj}
use scd.Config.Cycles.Topological.{Walk, edge, step}
use scd.Config.Cycles.Marks.{active-set_active, active-set_done}

-- A part of the search reports nothing and leaves no node active that was not.
abbrev Quiet : Search → Search → Type 0
Quiet s t = (t.cycles ≡ s.cycles) × ((v : String) → t.mark v ≡ active → s.mark v ≡ active)

-- Every active node leads to this one.
abbrev Leads : Edges → Search → String → Type 0
Leads edges s id = (v : String) → s.mark v ≡ active → Walk edges v id

module _ (edges : Edges) (clear : (v : String) → ¬ Walk edges v v)
    (go : String → Search → Option Search)
    (quiet : (id : String) (s t : Search)
      → s.mark id ≡ unseen
      → Leads edges s id
      → go id s ≡ some t
      → Quiet s t) where
  follow-Quiet :
      (order path : List String) (k : Mark) (next : String) (s t : Search)
      → s.mark next ≡ k
      → Leads edges s next
      → follow order path go k next s ≡ some t
      → Quiet s t
  unfolding follow
  follow-Quiet order path unseen next s t k l e = quiet next s t k l e
  follow-Quiet order path active next s t k l e = absurd (clear next (l next k))
  follow-Quiet order path done next s t k l e = subst (λ u. Quiet s u) (some_inj e) (refl, λ v a. a)

  follow_all-Quiet :
      (order path ids : List String) (cur : String) (s t : Search)
      → ((v : String) → Among v ids → Among v (targets edges cur))
      → ((v : String) → s.mark v ≡ active → (v ≡ cur) ⊎ Walk edges v cur)
      → follow_all order path go ids s ≡ some t
      → Quiet s t
  unfolding follow_all
  follow_all-Quiet order path [] cur s t among l e =
      subst (λ u. Quiet s u) (some_inj e) (refl, λ v a. a)
  follow_all-Quiet order path (id ∷ ids) cur s t among l e =
      let (u, e1, e2) =
        >>=-some (follow order path go (s.mark id) id s) (follow_all order path go ids) e in
      let on : (v : String) → (v ≡ cur) ⊎ Walk edges v cur → Walk edges v id = λ v x. elim x [
        | inl p ↦ subst (λ a. Walk edges a id) (sym p) (edge (among id (inl refl)))
        | inr w ↦ step w (among id (inl refl))
      ] in
      let (z1, a1) = follow-Quiet order path (s.mark id) id s u refl (λ v a. on v (l v a)) e1 in
      let (z2, a2) =
        follow_all-Quiet order path ids cur u t (λ v m. among v (inr m)) (λ v a. l v (a1 v a)) e2 in
      (z2 ∙ z1, λ v a. a1 v (a2 v a))

  root-Quiet :
      (k : Mark) (id : String) (s t : Search)
      → s.mark id ≡ k
      → Leads edges s id
      → root go k id s ≡ some t
      → Quiet s t
  unfolding root
  root-Quiet unseen id s t k l e = quiet id s t k l e
  root-Quiet active id s t k l e = subst (λ u. Quiet s u) (some_inj e) (refl, λ v a. a)
  root-Quiet done id s t k l e = subst (λ u. Quiet s u) (some_inj e) (refl, λ v a. a)

  visit_roots-Quiet :
      (ids : List String) (s t : Search)
      → ((v : String) → s.mark v ≢ active)
      → visit_roots go ids s ≡ some t
      → t.cycles ≡ s.cycles
  unfolding visit_roots
  visit_roots-Quiet [] s t n e = subst (λ u. u.cycles ≡ s.cycles) (some_inj e) refl
  visit_roots-Quiet (id ∷ ids) s t n e =
      let (u, e1, e2) = >>=-some (root go (s.mark id) id s) (visit_roots go ids) e in
      let (z1, a1) = root-Quiet (s.mark id) id s u refl (λ v a. absurd (n v a)) e1 in
      visit_roots-Quiet ids u t (λ v a. n v (a1 v a)) e2 ∙ z1

visit-Quiet :
    (order : List String) (edges : Edges)
    → ((v : String) → ¬ Walk edges v v)
    → (fuel : ℕ) (path : List String) (id : String) (s t : Search) → s.mark id ≡ unseen
    → Leads edges s id
    → visit order edges fuel path id s ≡ some t
    → Quiet s t
unfolding visit set_mark
visit-Quiet order edges clear zero path id s t e l h = cc
visit-Quiet order edges clear (suc fuel) path id s t e l h =
    let path' = path ++ id ∷ [] in
    let go = visit order edges fuel path' in
    let marked = set_mark id active s in
    let (u, e1, e2) =
      >>=-some (follow_all order path' go (targets edges id) marked)
        (λ u. some (set_mark id done u)) h in
    let (z, a) =
      follow_all-Quiet edges clear go (visit-Quiet order edges clear fuel path') order path'
        (targets edges id) id marked u (λ v m. m)
        (λ v x. elim (active-set_active id v s x) [ inl p ↦ inl (sym p) | inr q ↦ inr (l v q) ])
        e1 in
    subst (λ x. Quiet s x) (some_inj e2)
      (
        z,
        λ v x.
            let (ne, y) = active-set_done id v u x in
            elim (active-set_active id v s (a v y)) [ inl p ↦ absurd (ne p) | inr q ↦ q ],
      )

-- If no node depends on itself, then whatever findCycles returns has no cycle.
pub find_cycles-none :
    (order : List String) (edges : Edges) (cycles : List (List String))
    → ((v : String) → ¬ Walk edges v v)
    → find_cycles order edges ≡ some cycles
    → cycles ≡ []
unfolding find_cycles search_from
find_cycles-none order edges cycles clear h =
    let go = visit order edges (length (nodes order edges)) [] in
    let (s, e1, e2) = >>=-some (visit_roots go order no_marks) (λ s. some s.cycles) h in
    (cc)
    ∙ visit_roots-Quiet edges clear go
        (visit-Quiet order edges clear (length (nodes order edges)) []) order no_marks s (λ v x. cc)
        e1

-- findCycles always returns: no visit uses up its fuel, the number of nodes. It reports no cycle if no
-- node depends on itself, and if it reports none then no node of the order does.
pub find_cycles_complete :
    (order : List String) (edges : Edges)
    → (cycles : List (List String)) × (find_cycles order edges ≡ some cycles)
      × (((v : String) → ¬ Walk edges v v) → cycles ≡ [])
      × (cycles ≡ [] → (v : String) → Among v order → ¬ Walk edges v v)
find_cycles_complete order edges =
    let (cycles, e) = find_cycles-ends order edges in
    (
      cycles,
      e,
      λ clear. find_cycles-none order edges cycles clear e,
      λ z. find_cycles-Acyclic order edges (e ∙ ap (λ c. some c) z),
    )
