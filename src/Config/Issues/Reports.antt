-- ===== src/Config/Issues/Reports.antt =====
-- internal/common/schema/schema.go: when no issue stands in a sequence of reports.
use scd.Prelude.{Bool, true, false, List, [], ◌∷◌, ◌++◌, ◌≡◌, refl, if◌then◌else◌}
use scd.Config.Issues.{Issue, when}

pub append-nil_parts : (xs ys : List Issue) → xs ++ ys ≡ [] → (xs ≡ []) × (ys ≡ [])
append-nil_parts [] ys h = (refl, h)
append-nil_parts (x ∷ xs) ys h = cc

pub when-nil : (b : Bool) (i : Issue) → when b i ≡ [] → b ≡ false
when-nil true i h = cc
when-nil false i h = refl

pub else-nil :
    (b : Bool) (i : Issue) (rest : List Issue)
    → (if b then i ∷ [] else rest) ≡ []
    → (b ≡ false) × (rest ≡ [])
else-nil true i rest h = cc
else-nil false i rest h = (refl, h)
