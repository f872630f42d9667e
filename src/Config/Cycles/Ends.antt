-- ===== src/Config/Cycles/Ends.antt =====
-- internal/scd/config/rules.go: findCycles ends. Each visit marks a node that had no mark.
use scd.Prelude.{
  ℕ, zero, suc, ◌≤◌, String, Bool, true, false, Option, some, List, [], ◌∷◌, ◌++◌, ◌≡◌, ◌≢◌, refl,
  inl, inr, ◌==◌, string_eq, if◌then◌else◌, ◌>>=◌, length, Among, All, Bool-cases, ==_refl, lookup,
  arith, sym, subst,
}
use scd.Config.Cycles.{
  Edges, found, targets, Mark, unseen, active, done, Search, set_mark, follow, follow_all, visit,
  root, visit_roots, note_cycle, report_cycle, cycle_at, edge_ends, nodes, no_marks, search_from,
  find_cycles,
}

abbrev is_unseen : Mark → Bool
is_unseen unseen = true
is_unseen active = false
is_unseen done = false

-- How many of the nodes have no mark.
abbrev left_in : (String → Mark) → List String → ℕ
left_in m [] = 0
left_in m (v ∷ vs) = if is_unseen (m v) then suc (left_in m vs) else left_in m vs

-- A mark is never taken off.
abbrev Marks : Search → Search → Type 0
Marks s t = (v : String) → t.mark v ≡ unseen → s.mark v ≡ unseen

left_in-le :
    (m m' : String → Mark) (vs : List String)
    → ((v : String) → m' v ≡ unseen → m v ≡ unseen)
    → left_in m' vs ≤ left_in m vs
left_in-le m m' [] h = omega arith
left_in-le m m' (v ∷ vs) h = ground (arith, h v, left_in-le m m' vs h)

left_in-lt :
    (m m' : String → Mark) (vs : List String) (id : String)
    → ((v : String) → m' v ≡ unseen → m v ≡ unseen)
    → Among id vs
    → m id ≡ unseen
    → m' id ≢ unseen
    → suc (left_in m' vs) ≤ left_in m vs
left_in-lt m m' [] id h a e n = elim a [ ]
left_in-lt m m' (v ∷ vs) id h (inl p) e n = ground (arith, h v, left_in-le m m' vs h, p)
left_in-lt m m' (v ∷ vs) id h (inr a) e n = ground (arith, h v, left_in-lt m m' vs id h a)

set_mark-Marks : (id : String) (k : Mark) (s : Search) → k ≢ unseen → Marks s (set_mark id k s)
unfolding set_mark
set_mark-Marks id k s n v h = ground arith

left_in-le-length : (m : String → Mark) (vs : List String) → left_in m vs ≤ length vs
left_in-le-length m [] = omega arith
left_in-le-length m (v ∷ vs) = ground (arith, left_in-le-length m vs)

mark-report_cycle : (cycle : List String) (s : Search) → (report_cycle cycle s).mark ≡ s.mark
unfolding report_cycle
mark-report_cycle cycle s = ground arith

pub mark-note_cycle :
    (order path : List String) (next : String) (s : Search)
    → (note_cycle order path next s).mark ≡ s.mark
unfolding note_cycle
mark-note_cycle order path next s = mark-report_cycle (cycle_at order path next) s

-- The step returned, and took off no mark.
abbrev Ended : Search → Option Search → Type 0
Ended s o = (t : Search) × (o ≡ some t) × Marks s t

Ended-bind :
    (s : Search) (o : Option Search) (f : Search → Option Search)
    → Ended s o
    → ((t : Search) → Marks s t → Ended t (f t))
    → Ended s (o >>= f)
Ended-bind s o f (t, e, m) next =
    let (u, e', m') = next t m in
    (u, subst (λ x. (x >>= f) ≡ some u) (sym e) e', λ v h. m v (m' v h))

module _ (us : List String) (n : ℕ) (go : String → Search → Option Search)
    (ends : (id : String) (s : Search)
      → Among id us
      → s.mark id ≡ unseen
      → left_in s.mark us ≤ n
      → Ended s (go id s)) where
  follow-Ended :
      (order path : List String) (k : Mark) (next : String) (s : Search)
      → s.mark next ≡ k
      → Among next us
      → left_in s.mark us ≤ n
      → Ended s (follow order path go k next s)
  unfolding follow
  follow-Ended order path unseen next s e a h = ends next s a e h
  follow-Ended order path active next s e a h =
      (note_cycle order path next s, refl, λ v u. rw (sym (mark-note_cycle order path next s)) u)
  follow-Ended order path done next s e a h = (s, refl, λ v u. u)

  follow_all-Ended :
      (order path ids : List String) (s : Search)
      → All (λ v. Among v us) ids
      → left_in s.mark us ≤ n
      → Ended s (follow_all order path go ids s)
  unfolding follow_all
  follow_all-Ended order path [] s a h = (s, refl, λ v u. u)
  follow_all-Ended order path (id ∷ ids) s a h =
      Ended-bind s _ _ (follow-Ended order path (s.mark id) id s refl a.0 h) (λ t m.
        follow_all-Ended order path ids t a.1 (omega (arith, left_in-le s.mark t.mark us m)))

  root-Ended :
      (k : Mark) (id : String) (s : Search)
      → s.mark id ≡ k
      → Among id us
      → left_in s.mark us ≤ n
      → Ended s (root go k id s)
  unfolding root
  root-Ended unseen id s e a h = ends id s a e h
  root-Ended active id s e a h = (s, refl, λ v u. u)
  root-Ended done id s e a h = (s, refl, λ v u. u)

  visit_roots-Ended :
      (ids : List String) (s : Search)
      → All (λ v. Among v us) ids
      → left_in s.mark us ≤ n
      → Ended s (visit_roots go ids s)
  unfolding visit_roots
  visit_roots-Ended [] s a h = (s, refl, λ v u. u)
  visit_roots-Ended (id ∷ ids) s a h =
      Ended-bind s _ _ (root-Ended (s.mark id) id s refl a.0 h)
        (λ t m. visit_roots-Ended ids t a.1 (omega (arith, left_in-le s.mark t.mark us m)))

left_in-pos :
    (m : String → Mark) (vs : List String) (id : String)
    → Among id vs
    → m id ≡ unseen
    → 1 ≤ left_in m vs
left_in-pos m [] id a e = elim a [ ]
left_in-pos m (v ∷ vs) id (inl p) e = ground (arith, p)
left_in-pos m (v ∷ vs) id (inr a) e = ground (arith, left_in-pos m vs id a)

less :
    (s : Search) (id : String) (us : List String) {n : ℕ}
    → Among id us
    → s.mark id ≡ unseen
    → left_in s.mark us ≤ suc n
    → left_in (set_mark id active s).mark us ≤ n
unfolding set_mark
less s id us a e h =
    let marked = set_mark id active s in
    omega (
      arith,
      left_in-lt s.mark marked.mark us id (set_mark-Marks id active s (λ p. cc)) a e
          (rw (==_refl id) (λ p. cc)),
    )

visit-Ended :
    (order us : List String) (edges : Edges)
    → ((id : String) → All (λ v. Among v us) (targets edges id))
    → (fuel : ℕ) (path : List String) (id : String) (s : Search) → Among id us
    → s.mark id ≡ unseen
    → left_in s.mark us ≤ fuel
    → Ended s (visit order edges fuel path id s)
unfolding visit
visit-Ended order us edges closed zero path id s a e h =
    absurd (omega (arith, left_in-pos s.mark us id a e))
visit-Ended order us edges closed (suc fuel) path id s a e h =
    let marked = set_mark id active s in
    let m = set_mark-Marks id active s (λ p. cc) in
    let (t, e', m') =
      follow_all-Ended us fuel (visit order edges fuel (path ++ id ∷ []))
        (visit-Ended order us edges closed fuel (path ++ id ∷ [])) order (path ++ id ∷ [])
        (targets edges id) marked (closed id) (less s id us a e h) in
    (set_mark id done t, rw e' refl, λ v u. m v (m' v (set_mark-Marks id done t (λ p. cc) v u)))

pub Among-append_left : (a : String) (xs ys : List String) → Among a xs → Among a (xs ++ ys)
Among-append_left a [] ys h = elim h [ ]
Among-append_left a (x ∷ xs) ys (inl p) = inl p
Among-append_left a (x ∷ xs) ys (inr h) = inr (Among-append_left a xs ys h)

pub Among-append_right : (a : String) (xs ys : List String) → Among a ys → Among a (xs ++ ys)
Among-append_right a [] ys h = h
Among-append_right a (x ∷ xs) ys h = inr (Among-append_right a xs ys h)

pub All-self :
    (xs ys : List String) → ((v : String) → Among v xs → Among v ys) → All (λ v. Among v ys) xs
All-self [] ys h = tt
All-self (x ∷ xs) ys h = (h x (inl refl), All-self xs ys (λ v a. h v (inr a)))

pub targets-Among :
    (id v : String) (edges : Edges) → Among v (targets edges id) → Among v (edge_ends edges)
unfolding targets lookup edge_ends
targets-Among id v [] a = elim a [ ]
targets-Among id v ((from, to) ∷ rest) a = elim (Bool-cases (from == id)) [
  | inl y ↦
      Among-append_left v to (edge_ends rest)
        (subst (λ b. Among v (found (if b then some to else lookup id rest))) y a)
  | inr n ↦ Among-append_right v to (edge_ends rest) (
      targets-Among id v rest
        (subst (λ b. Among v (found (if b then some to else lookup id rest))) n a))
]

-- findCycles always returns: the fuel of a visit, the number of nodes, is never used up.
pub find_cycles-ends :
    (order : List String) (edges : Edges)
    → (cycles : List (List String)) × (find_cycles order edges ≡ some cycles)
unfolding find_cycles search_from nodes
find_cycles-ends order edges =
    let us = order ++ edge_ends edges in
    let closed : (id : String) → All (λ v. Among v us) (targets edges id) = λ id.
      All-self (targets edges id) us
        (λ v a. Among-append_right v order (edge_ends edges) (targets-Among id v edges a)) in
    let (s, e, m) =
      visit_roots-Ended us (length us) (visit order edges (length us) [])
        (visit-Ended order us edges closed (length us) []) order no_marks
        (All-self order us (λ v a. Among-append_left v order (edge_ends edges) a))
        (left_in-le-length no_marks.mark us) in
    (s.cycles, rw e refl)
