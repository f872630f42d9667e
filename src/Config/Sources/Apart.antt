-- ===== src/Config/Sources/Apart.antt =====
-- internal/scd/config/rules.go and internal/scd/apply/namespace.go: what the rules on the sources give
-- to the apply of a source, whose namespace decides what it removes.
use scd.Prelude.{
  ℕ, suc, ◌≡◌, ◌≢◌, inl, inr, String, Bool, true, false, not, ◌&&◌, ◌||◌, Option, none, some, List,
  [], ◌∷◌, ◌++◌, ◌==◌, string_eq, has_prefix, if◌then◌else◌, All, All-append, All-map, Bool-cases,
  ne→==_false, ==_false→ne, arith, subst, ==→eq,
}
use scd.Xray.{outbound, inbound, routing}
use scd.Config.{PortRange, Source, Target, Subscription, Resources}
use scd.Config.Issues.{Issue, Place, subscription}
use scd.Config.Issues.Reports.{append-nil_parts, when-nil, else-nil}
use scd.Config.Sources.Spaces.{namespace, InRange, Apart, IdsApart, Outside, namespaces_apart}
use scd.Config.Sources.{
  prefix_of, ranges_meet, valid_source_id, clashes, clashes_all, id_issues, ids_issues,
  fixed_issues, fixed_part, namespace_issues, target_source_issues, check_target_sources,
  subscription_issues, check_sources,
}
use scd.Apply.{owns}

-- Each element is related to those before it.
abbrev pub EachBefore {κ} : (Source → Source → Type κ) → List Source → List Source → Type κ
EachBefore R before [] = Unit
EachBefore R before (x ∷ xs) = All (R x) before × EachBefore R (before ++ x ∷ []) xs

abbrev Named : Source → Type 0
Named src = src.id ≢ ""

abbrev Checked : Source → Source → Type 0
Checked x y = IdsApart x y × (ranges_meet x.port_range y.port_range ≡ false)

guarded : (a b : Bool) → a ≡ false → (not a && b) ≡ false → b ≡ false
guarded a b h k = ground arith

or_false : (a b : Bool) → (a || b) ≡ false → (a ≡ false) × (b ≡ false)
or_false a b h = ground arith

clashes-Checked :
    (n : Place) (j : ℕ) (x y : Source) → Named x → Named y → clashes n j x y ≡ [] → Checked x y
unfolding clashes
clashes-Checked n j x y hx hy h =
    let ex = ne→==_false x.id "" hx in
    let ey = ne→==_false y.id "" hy in
    let (ids, ranges) = append-nil_parts _ _ h in
    let (same, rest) = else-nil _ _ _ ids in
    let (p, q) = or_false _ _ (guarded _ _ ey (guarded _ _ ex (when-nil _ _ rest))) in
    ((==_false→ne x.id y.id (guarded _ _ ex same), p, q), when-nil _ _ ranges)

clashes_all-Checked :
    (n : Place) (j : ℕ) (x : Source) (ys : List Source)
    → Named x
    → All Named ys
    → clashes_all n j x ys ≡ []
    → All (Checked x) ys
unfolding clashes_all
clashes_all-Checked n j x [] hx hys h = tt
clashes_all-Checked n j x (y ∷ ys) hx hys h =
    let (a, b) = append-nil_parts _ _ h in
    (clashes-Checked n j x y hx hys.0 a, clashes_all-Checked n j x ys hx hys.1 b)

id_issues-Checked :
    (n : Place) (j : ℕ) (x : Source) (before : List Source)
    → Named x
    → All Named before
    → id_issues n j x before ≡ []
    → (valid_source_id x.id ≡ true) × All (Checked x) before
unfolding id_issues
id_issues-Checked n j x before hx hb h =
    let (c, rest) = else-nil _ _ _ h in
    (valid _ _ (ne→==_false x.id "" hx) c, clashes_all-Checked n j x before hx hb rest)
  where
    valid : (a b : Bool) → a ≡ false → (not a && not b) ≡ false → b ≡ true
    valid a b e k = ground arith

ids_issues-Checked :
    (n : Place) (j : ℕ) (before xs : List Source)
    → All Named before
    → All Named xs
    → ids_issues n j before xs ≡ []
    → All (λ x. valid_source_id x.id ≡ true) xs × EachBefore Checked before xs
unfolding ids_issues
ids_issues-Checked n j before [] hb hx h = (tt, tt)
ids_issues-Checked n j before (x ∷ xs) hb hx h =
    let (a, b) = append-nil_parts _ _ h in
    let (v, c) = id_issues-Checked n j x before hx.0 hb a in
    let (vs, cs) =
      ids_issues-Checked n (suc j) (before ++ x ∷ []) xs
        (All-append Named before (x ∷ []) hb (hx.0, tt)) hx.1 b in
    ((v, vs), (c, cs))

-- The fixed tags of a target that lie in no namespace of this source.
abbrev pub FixedFree : Target → Source → Type 0
FixedFree t src =
    All (λ tag. owns (namespace t src) outbound tag ≡ false) t.fixed_outbounds
    × All (λ tag. owns (namespace t src) inbound tag ≡ false) t.fixed_inbounds
    × All (λ tag. owns (namespace t src) routing tag ≡ false) t.fixed_routing

fixed_issues-All :
    (n : Place) (src : Source) (name : String) (inside : String → Bool) (tags : List String)
    → fixed_issues n src name inside tags ≡ []
    → All (λ tag. inside tag ≡ false) tags
unfolding fixed_issues
fixed_issues-All n src name inside [] h = tt
fixed_issues-All n src name inside (tag ∷ tags) h =
    let (a, b) = append-nil_parts _ _ h in
    (when-nil _ _ a, fixed_issues-All n src name inside tags b)

namespace_issues-Outside :
    (n : Place) (j : ℕ) (src : Source) (t : Target)
    → namespace_issues n j src t ≡ []
    → Outside t src × (src.enabled ≡ true → FixedFree t src)
unfolding namespace_issues owns
namespace_issues-Outside n j src t h =
    let (a, b) = append-nil_parts _ _ h in
    (outside (when-nil _ _ a), λ on. free (enabled_part _ _ on b))
  where
    outside :
        (not (t.observatory_prefix == "")
            && (has_prefix t.observatory_prefix (prefix_of src)
                || has_prefix (prefix_of src) t.observatory_prefix))
          ≡ false
        → Outside t src
    outside e = elim (Bool-cases (t.observatory_prefix == "")) [
      | inl y ↦ inl (==→eq t.observatory_prefix "" y)
      | inr m ↦ inr (or_false _ _ (guarded _ _ m e))
    ]

    enabled_part :
        (b : Bool) (xs : List Issue) → b ≡ true → (if not b then [] else xs) ≡ [] → xs ≡ []
    enabled_part b xs on e = ground arith

    free : fixed_part n src t ≡ [] → FixedFree t src
    free e =
        let (o, rest) = append-nil_parts _ _ e in
        let (i, r) = append-nil_parts _ _ rest in
        (
          fixed_issues-All n src _ _ t.fixed_outbounds o,
          fixed_issues-All n src _ _ t.fixed_inbounds i,
          fixed_issues-All n src _ _ t.fixed_routing r,
        )

abbrev Guarded : Target → Source → Type 0
Guarded t src = Outside t src × (src.enabled ≡ true → FixedFree t src)

target_source_issues-Guarded :
    (n : Place) (j : ℕ) (src : Source) (t : Target) (res : Resources)
    → valid_source_id src.id ≡ true
    → target_source_issues n j src t res ≡ []
    → Guarded t src
unfolding target_source_issues
target_source_issues-Guarded n j src t res v h =
    let (a, rest) = append-nil_parts _ _ h in
    let (b, c) = append-nil_parts _ _ rest in
    namespace_issues-Outside n j src t
      (subst (λ b. (if not b then [] else namespace_issues n j src t) ≡ []) v c)

check_target_sources-Guarded :
    (n : Place) (j : ℕ) (xs : List Source) (t : Target) (res : Resources)
    → All (λ x. valid_source_id x.id ≡ true) xs
    → check_target_sources n j xs t res ≡ []
    → All (Guarded t) xs
unfolding check_target_sources
check_target_sources-Guarded n j [] t res v h = tt
check_target_sources-Guarded n j (x ∷ xs) t res v h =
    let (a, b) = append-nil_parts _ _ h in
    (
      target_source_issues-Guarded n j x t res v.0 a,
      check_target_sources-Guarded n (suc j) xs t res v.1 b,
    )

ports_apart :
    (a b : Option PortRange)
    → ranges_meet a b ≡ false
    → (port : ℕ) → InRange a port
    → ¬ InRange b port
unfolding ranges_meet
ports_apart none b e port h k = h
ports_apart (some pr) none e port h k = k
ports_apart (some pr) (some op) e port h k = ground arith

Checked-Apart : (t : Target) (x y : Source) → Outside t x → Outside t y → Checked x y → Apart t x y
Checked-Apart t x y ox oy (ids, ranges) =
    (namespaces_apart t x y ids ox oy, ports_apart x.port_range y.port_range ranges)

All-Apart :
    (t : Target) (x : Source) (ys : List Source)
    → Outside t x
    → All (Guarded t) ys
    → All (Checked x) ys
    → All (Apart t x) ys
All-Apart t x [] ox g c = tt
All-Apart t x (y ∷ ys) ox g c = (Checked-Apart t x y ox g.0.0 c.0, All-Apart t x ys ox g.1 c.1)

EachBefore-Apart :
    (t : Target) (before xs : List Source)
    → All (Guarded t) before
    → All (Guarded t) xs
    → EachBefore Checked before xs
    → EachBefore (Apart t) before xs
EachBefore-Apart t before [] gb gx c = tt
EachBefore-Apart t before (x ∷ xs) gb gx c = (
  All-Apart t x before gx.0.0 gb c.0,
  EachBefore-Apart t (before ++ x ∷ []) xs (All-append (Guarded t) before (x ∷ []) gb (gx.0, tt))
      gx.1 c.1,
)

-- No two sources of a subscription share a tag or a port, and none that is enabled owns a fixed tag.
abbrev pub Separate : Subscription → Type 0
Separate sub =
    EachBefore (Apart sub.target) [] sub.sources
    × All (λ src. src.enabled ≡ true → FixedFree sub.target src) sub.sources

subscription_issues-Separate :
    (i : ℕ) (sub : Subscription) (res : Resources)
    → All Named sub.sources
    → subscription_issues i sub res ≡ []
    → Separate sub
unfolding subscription_issues
subscription_issues-Separate i sub res names h =
    let (a, b) = append-nil_parts _ _ h in
    let (v, c) = ids_issues-Checked (subscription i) 0 [] sub.sources tt names a in
    let g = check_target_sources-Guarded (subscription i) 0 sub.sources sub.target res v b in
    (EachBefore-Apart sub.target [] sub.sources tt g c, All-map (λ src k. k.1) sub.sources g)

-- If checkSources reports nothing on subscriptions whose sources have an id, then in each of them no
-- tag of any kind lies in the namespaces of two sources, no two port ranges share a port, and no fixed
-- tag lies in the namespace of an enabled source: what Apply takes for one source's is no other's.
pub check_sources-Separate :
    (i : ℕ) (subs : List Subscription) (res : Resources)
    → All (λ sub. All (λ src. src.id ≢ "") sub.sources) subs
    → check_sources i subs res ≡ []
    → All Separate subs
unfolding check_sources
check_sources-Separate i [] res names h = tt
check_sources-Separate i (sub ∷ subs) res names h =
    let (a, b) = append-nil_parts _ _ h in
    (
      subscription_issues-Separate i sub res names.0 a,
      check_sources-Separate (suc i) subs res names.1 b,
    )
