-- ===== src/Config/Dependencies/Grown.antt =====
-- internal/scd/config/rules.go: a step of checkDependencies that reports nothing and loses no edge.
use scd.Prelude.{
  String, Bool, true, false, List, [], ◌∷◌, ◌++◌, ◌≡◌, ◌≢◌, refl, string_eq, if◌then◌else◌, Among,
}
use scd.Config.Issues.{Issue}
use scd.Config.Issues.Reports.{append-nil_parts}
use scd.Config.Cycles.{targets}
use scd.Config.Dependencies.{Found, report, warn, see}

pub append-ne-nil : (xs : List Issue) (i : Issue) → (xs ++ i ∷ []) ≢ []
append-ne-nil [] i e = cc
append-ne-nil (x ∷ xs) i e = cc

-- A refusal whose test did not hold.
pub passed :
    (c : Bool) (i : Issue) (f g : Found)
    → (if c then report (i ∷ []) f else g).issues ≡ []
    → (if c then report (i ∷ []) f else g) ≡ g
passed true i f g z = absurd (append-ne-nil f.issues i z)
passed false i f g z = refl

-- A step of the loops after which there is no issue: there was none before, and no edge is lost.
pub record Grows (f g : Found) : Type 0 where
  pub before :
      g.issues ≡ []
      → (f.issues ≡ [])
        × ((a b : String) → Among b (targets f.edges a) → Among b (targets g.edges a))

pub Grows-refl : (f : Found) → Grows f f
Grows-refl f = record { before = λ z. (z, λ a b m. m) }

pub Grows-trans : {f g h : Found} → Grows f g → Grows g h → Grows f h
Grows-trans p q = record {
  before = λ z. let (y, k) = q.before z in let (x, l) = p.before y in (x, λ a b m. k a b (l a b m));
}

pub if-Grows : (c : Bool) {f x y : Found} → Grows f x → Grows f y → Grows f (if c then x else y)
if-Grows true p q = p
if-Grows false p q = q

pub report-Grows : (is : List Issue) {f g : Found} → Grows f g → Grows f (report is g)
report-Grows is {g = g} p = record { before = λ z. p.before (append-nil_parts g.issues is z).0 }

pub warn-Grows : (is : List Issue) {f g : Found} → Grows f g → Grows f (warn is g)
warn-Grows is p = record { before = p.before }

pub see-Grows : (name : String) {f g : Found} → Grows f g → Grows f (see name g)
see-Grows name p = record { before = p.before }
