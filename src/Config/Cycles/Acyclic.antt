-- ===== src/Config/Cycles/Acyclic.antt =====
-- internal/scd/config/rules.go: what it means that findCycles reports no cycle.
use scd.Prelude.{
  ℕ, zero, suc, String, true, Option, some, List, [], ◌∷◌, ◌++◌, ◌≡◌, ◌≢◌, refl, inl, inr,
  string_eq, >>=-some, length, Among, All, All-map, Bool-cases, contains, subst,
}
use scd.Config.Cycles.Ends.{mark-note_cycle}
use scd.Config.Cycles.{
  Edges, targets, Mark, unseen, active, done, Search, set_mark, follow, follow_all, visit, root,
  visit_roots, note_cycle, report_cycle, cycle_at, join, no_marks, search_from, find_cycles, nodes,
}
use scd.Config.Cycles.Marks.{
  set_active-done, done-set_active, active-set_active, active-set_done, done-set_done,
  set_done-done, set_done_self,
}
use scd.Config.Cycles.Topological.{Walk, Topo, All-Among, no_return}

-- What is marked done is listed, each node before what it has edges to.
abbrev Listed : Edges → Search → Type 0
Listed edges s =
    (fin : List String) × ((v : String) → s.mark v ≡ done → Among v fin) × Topo edges fin

-- No cycle is taken for reported before one is.
abbrev Clean : Search → Type 0
Clean s = s.cycles ≡ [] → s.reported ≡ []

-- A part of the search leaves no node active that was not; if no cycle is reported after it, it keeps
-- what is done, and its goal holds.
abbrev Settles : Edges → Search → Search → Type 0 → Type 0
Settles edges s t Goal =
    Clean t
    × ((v : String) → t.mark v ≡ active → s.mark v ≡ active)
    × (t.cycles ≡ []
        → (s.cycles ≡ [])
          × (Listed edges s → Listed edges t)
          × ((v : String) → s.mark v ≡ done → t.mark v ≡ done)
          × Goal)

append-ne-nil : (xs : List (List String)) (x : List String) → (xs ++ x ∷ []) ≢ []
append-ne-nil [] x e = cc
append-ne-nil (y ∷ xs) x e = cc

pub some_inj : {a b : Search} → some a ≡ some b → a ≡ b
some_inj e = cc

contains-ne-nil : (xs : List String) (a : String) → contains xs a ≡ true → xs ≢ []
unfolding contains
contains-ne-nil [] a h e = cc
contains-ne-nil (x ∷ xs) a h e = cc

report_cycle-Clean :
    (cycle : List String) (s : Search)
    → Clean s
    → Clean (report_cycle cycle s) × ((report_cycle cycle s).cycles ≢ [])
unfolding report_cycle
report_cycle-Clean cycle s c = elim (Bool-cases (contains s.reported (join cycle))) [
  | inl y ↦ rw y (c, λ e. contains-ne-nil s.reported (join cycle) y (c e))
  | inr n ↦ rw n ((λ e. absurd (append-ne-nil s.cycles cycle e)), append-ne-nil s.cycles cycle)
]

note_cycle-Clean :
    (order path : List String) (next : String) (s : Search)
    → Clean s
    → Clean (note_cycle order path next s) × ((note_cycle order path next s).cycles ≢ [])
unfolding note_cycle
note_cycle-Clean order path next s = report_cycle-Clean (cycle_at order path next) s

module _ (edges : Edges) (go : String → Search → Option Search)
    (settles : (id : String) (s t : Search)
      → s.mark id ≡ unseen
      → Clean s
      → go id s ≡ some t
      → Settles edges s t (t.mark id ≡ done)) where
  follow-Settles :
      (order path : List String) (k : Mark) (next : String) (s t : Search)
      → s.mark next ≡ k
      → Clean s
      → follow order path go k next s ≡ some t
      → Settles edges s t (t.mark next ≡ done)
  unfolding follow
  follow-Settles order path unseen next s t k c e = settles next s t k c e
  follow-Settles order path active next s t k c e =
      let (clean, ne) = note_cycle-Clean order path next s c in
      subst (λ u. Settles edges s u (u.mark next ≡ done)) (some_inj e)
        (
          clean,
          λ v a. subst (λ m. m v ≡ active) (mark-note_cycle order path next s) a,
          λ none_yet. absurd (ne none_yet),
        )
  follow-Settles order path done next s t k c e =
      subst (λ u. Settles edges s u (u.mark next ≡ done)) (some_inj e)
        (c, λ v a. a, λ z. (z, λ l. l, λ v d. d, k))

  follow_all-Settles :
      (order path ids : List String) (s t : Search)
      → Clean s
      → follow_all order path go ids s ≡ some t
      → Settles edges s t (All (λ v. t.mark v ≡ done) ids)
  unfolding follow_all
  follow_all-Settles order path [] s t c e =
      subst (λ u. Settles edges s u (Unit {0})) (some_inj e)
        (c, λ v a. a, λ z. (z, λ l. l, λ v d. d, tt))
  follow_all-Settles order path (id ∷ ids) s t c e =
      let (u, e1, e2) =
        >>=-some (follow order path go (s.mark id) id s) (follow_all order path go ids) e in
      let (c1, a1, h1) = follow-Settles order path (s.mark id) id s u refl c e1 in
      let (c2, a2, h2) = follow_all-Settles order path ids u t c1 e2 in
      (
        c2,
        λ v a. a1 v (a2 v a),
        λ z.
            let (z1, l2, k2, g2) = h2 z in
            let (z0, l1, k1, g1) = h1 z1 in
            (z0, λ l. l2 (l1 l), λ v d. k2 v (k1 v d), (k2 id g1, g2)),
      )

  root-Settles :
      (k : Mark) (id : String) (s t : Search)
      → s.mark id ≡ k
      → k ≢ active
      → Clean s
      → root go k id s ≡ some t
      → Settles edges s t (t.mark id ≡ done)
  unfolding root
  root-Settles unseen id s t k n c e = settles id s t k c e
  root-Settles active id s t k n c e = absurd (n refl)
  root-Settles done id s t k n c e =
      subst (λ u. Settles edges s u (u.mark id ≡ done)) (some_inj e)
        (c, λ v a. a, λ z. (z, λ l. l, λ v d. d, k))

  visit_roots-Settles :
      (ids : List String) (s t : Search)
      → Clean s
      → ((v : String) → s.mark v ≢ active)
      → visit_roots go ids s ≡ some t
      → Settles edges s t (All (λ v. t.mark v ≡ done) ids)
  unfolding visit_roots
  visit_roots-Settles [] s t c n e =
      subst (λ u. Settles edges s u (Unit {0})) (some_inj e)
        (c, λ v a. a, λ z. (z, λ l. l, λ v d. d, tt))
  visit_roots-Settles (id ∷ ids) s t c n e =
      let (u, e1, e2) = >>=-some (root go (s.mark id) id s) (visit_roots go ids) e in
      let (c1, a1, h1) = root-Settles (s.mark id) id s u refl (n id) c e1 in
      let (c2, a2, h2) = visit_roots-Settles ids u t c1 (λ v a. n v (a1 v a)) e2 in
      (
        c2,
        λ v a. a1 v (a2 v a),
        λ z.
            let (z1, l2, k2, g2) = h2 z in
            let (z0, l1, k1, g1) = h1 z1 in
            (z0, λ l. l2 (l1 l), λ v d. k2 v (k1 v d), (k2 id g1, g2)),
      )

-- The end of a visit.
done-Settles :
    (edges : Edges) (id : String) (s u : Search)
    → s.mark id ≡ unseen
    → Settles edges (set_mark id active s) u (All (λ v. u.mark v ≡ done) (targets edges id))
    → Settles edges s (set_mark id done u) ((set_mark id done u).mark id ≡ done)
unfolding set_mark
done-Settles edges id s u e (c, a, h) = (
  c,
  still_active,
  λ z.
      let (z0, l, k, g) = h z in
      (
        z0,
        λ (fin, d, t). listed g (l (fin, λ v x. d v (done-set_active id v s x), t)),
        λ v d. set_done-done id v u (k v (set_active-done id v s e d)),
        set_done_self id u,
      ),
)
  where
    still_active : (v : String) → (set_mark id done u).mark v ≡ active → s.mark v ≡ active
    still_active v x =
        let (ne, y) = active-set_done id v u x in
        elim (active-set_active id v s (a v y)) [ inl p ↦ absurd (ne p) | inr q ↦ q ]

    listed :
        All (λ v. u.mark v ≡ done) (targets edges id)
        → Listed edges u
        → Listed edges (set_mark id done u)
    listed g (fin, d, t) = (
      id ∷ fin,
      λ v x. elim (done-set_done id v u x) [ inl p ↦ inl p | inr q ↦ inr (d v q) ],
      (All-map d (targets edges id) g, t),
    )

visit-Settles :
    (order : List String) (edges : Edges) (fuel : ℕ) (path : List String) (id : String)
    (s t : Search)
    → s.mark id ≡ unseen
    → Clean s
    → visit order edges fuel path id s ≡ some t
    → Settles edges s t (t.mark id ≡ done)
unfolding visit
visit-Settles order edges zero path id s t e c h = cc
visit-Settles order edges (suc fuel) path id s t e c h =
    let path' = path ++ id ∷ [] in
    let go = visit order edges fuel path' in
    let marked = set_mark id active s in
    let (u, e1, e2) =
      >>=-some (follow_all order path' go (targets edges id) marked)
        (λ u. some (set_mark id done u)) h in
    subst (λ x. Settles edges s x (x.mark id ≡ done)) (some_inj e2)
      (done-Settles edges id s u e (
        follow_all-Settles edges go (visit-Settles order edges fuel path') order path'
          (targets edges id) marked u (unfold set_mark in c) e1))

-- If findCycles reports no cycle, then no source of the order depends on itself, through however many
-- others.
pub find_cycles-Acyclic :
    (order : List String) (edges : Edges)
    → find_cycles order edges ≡ some []
    → (v : String) → Among v order
    → ¬ Walk edges v v
unfolding find_cycles search_from
find_cycles-Acyclic order edges h v m w =
    let go = visit order edges (length (nodes order edges)) [] in
    let (s, e1, e2) = >>=-some (visit_roots go order no_marks) (λ s. some s.cycles) h in
    let (c, a, settled) =
      visit_roots-Settles edges go (visit-Settles order edges (length (nodes order edges)) []) order
        no_marks s (λ z. refl) (λ v x. cc) e1 in
    let (z, l, k, g) = settled (cc) in
    let (fin, d, t) = l ([], (λ v x. absurd (cc)), tt) in
    no_return edges fin v t (d v (All-Among (λ x. s.mark x ≡ done) order v g m)) w
