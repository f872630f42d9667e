-- ===== src/Prelude/Prefixes.antt =====
-- Two prefixes of one text: one is a prefix of the other.
use Prim.Native.Char.{Char}
use Prim.Native.String.{String}
use mathlib.Core.Path.{◌≡◌, refl, sym, ap, ◌∙◌, subst}
use mathlib.Core.Logic.{◌⊎◌, inl, inr}
use mathlib.Core.Bool.{true}
use text.Mathlib.TextBridge.{IsPrefix}
use text.Mathlib.TextEquality.{starts_with_iff}
use text.Mathlib.TextLemmas.{
  append_assoc, cons-append, nil-append, cons-eq-cons, append_cancel_left,
  append-ne-nil_of_right_ne-nil, append-eq-nil_iff, cons≢nil,
}
use scd.Prelude.Text.{append, has_prefix}

-- The heads and the tails of two texts that are equal once something is appended.
cons_parts :
    (c d : Char) (a b r q : String)
    → append (String.◌∷◌ c a) r ≡ append (String.◌∷◌ d b) q
    → (c ≡ d) × (append a r ≡ append b q)
cons_parts c d a b r q e = cons-eq-cons.0 (sym (cons-append c a r) ∙ (e ∙ cons-append d b q))

cons-IsPrefix :
    (c d : Char) (a b : String) → c ≡ d → IsPrefix a b → IsPrefix (String.◌∷◌ c a) (String.◌∷◌ d b)
cons-IsPrefix c d a b p (u, e) = (u, cons-append c a u ∙ (λ i. String.◌∷◌ (p i) (e i)))

comparable : (a b r q : String) → append a r ≡ append b q → IsPrefix a b ⊎ IsPrefix b a
comparable String.[] b r q e = inl (b, nil-append b)
comparable (String.◌∷◌ c a) String.[] r q e = inr (String.◌∷◌ c a, nil-append (String.◌∷◌ c a))
comparable (String.◌∷◌ c a) (String.◌∷◌ d b) r q e =
    let (p, t) = cons_parts c d a b r q e in
    elim (comparable a b r q t) [
      | inl h ↦ inl (cons-IsPrefix c d a b p h)
      | inr h ↦ inr (cons-IsPrefix d c b a (sym p) h)
    ]

pub prefixes_comparable :
    (s a b : String)
    → has_prefix s a ≡ true
    → has_prefix s b ≡ true
    → (has_prefix b a ≡ true) ⊎ (has_prefix a b ≡ true)
prefixes_comparable s a b h k =
    let (r, e) = (starts_with_iff s a).0 h in
    let (q, f) = (starts_with_iff s b).0 k in
    elim (comparable a b r q (e ∙ sym f)) [
      | inl p ↦ inl ((starts_with_iff b a).1 p)
      | inr p ↦ inr ((starts_with_iff a b).1 p)
    ]

-- Under one more text in front.
pub has_prefix-append_cancel :
    (front s p : String)
    → has_prefix (append front s) (append front p) ≡ true
    → has_prefix s p ≡ true
has_prefix-append_cancel front s p h =
    let (u, e) = (starts_with_iff (append front s) (append front p)).0 h in
    (starts_with_iff s p).1
      (u, append_cancel_left front (append p u) s (sym (append_assoc front p u) ∙ e))

pub has_prefix_front :
    (s front p : String) → has_prefix s (append front p) ≡ true → has_prefix s front ≡ true
has_prefix_front s front p h =
    let (u, e) = (starts_with_iff s (append front p)).0 h in
    (starts_with_iff s front).1 (append p u, sym (append_assoc front p u) ∙ e)

dash_prefix :
    (a b : String) → IsPrefix (append a "-") (append b "-") → (a ≡ b) ⊎ IsPrefix (append a "-") b
dash_prefix String.[] String.[] h = inl refl
dash_prefix String.[] (String.◌∷◌ d b) (u, e) =
    let dash : Char = "-" in
    let (p, t) = cons_parts dash d String.[] b u "-" e in
    inr (cons-IsPrefix dash d String.[] b p (b, nil-append b))
dash_prefix (String.◌∷◌ c a) String.[] (u, e) =
    let dash : Char = "-" in
    let (p, t) =
      cons_parts c dash (append a "-") String.[] u String.[]
        (ap (λ z. append z u) (sym (cons-append c a "-")) ∙ e) in
    absurd (append-ne-nil_of_right_ne-nil a {t = "-"} cons≢nil (append-eq-nil_iff.0 t).0)
dash_prefix (String.◌∷◌ c a) (String.◌∷◌ d b) (u, e) =
    let (p, t) =
      cons_parts c d (append a "-") b u "-"
        (ap (λ z. append z u) (sym (cons-append c a "-")) ∙ e) in
    elim (dash_prefix a b (u, t)) [
      | inl same ↦ inl (λ i. String.◌∷◌ (p i) (same i))
      | inr (v, f) ↦ inr (
        v,
        ap (λ z. append z v) (cons-append c a "-")
            ∙ (cons-append c (append a "-") v ∙ (λ i. String.◌∷◌ (p i) (f i))),
      )
    ]

-- Of two names whose dashed forms start one text, they are equal or one starts with the other's.
pub dashed_comparable :
    (s a b : String)
    → has_prefix s (append a "-") ≡ true
    → has_prefix s (append b "-") ≡ true
    → (a ≡ b) ⊎ ((has_prefix a (append b "-") ≡ true) ⊎ (has_prefix b (append a "-") ≡ true))
dashed_comparable s a b h k = elim (prefixes_comparable s (append a "-") (append b "-") h k) [
  | inl p ↦ elim (dash_prefix a b ((starts_with_iff _ _).0 p)) [
    | inl same ↦ inl same
    | inr q ↦ inr (inr ((starts_with_iff b (append a "-")).1 q))
  ]
  | inr p ↦ elim (dash_prefix b a ((starts_with_iff _ _).0 p)) [
    | inl same ↦ inl (sym same)
    | inr q ↦ inr (inl ((starts_with_iff a (append b "-")).1 q))
  ]
]

-- What follows a common front.
pub has_prefix_rest :
    (s front : String)
    → has_prefix s front ≡ true
    → (rest : String) × ((p : String)
        → has_prefix s (append front p) ≡ true
        → has_prefix rest p ≡ true)
has_prefix_rest s front h =
    let (rest, e) = (starts_with_iff s front).0 h in
    (
      rest,
      λ p k.
          has_prefix-append_cancel front rest p
            (subst (λ z. has_prefix z (append front p) ≡ true) (sym e) k),
    )

pub append_nothing : (front p : String) → front ≡ "" → append front p ≡ p
append_nothing front p e = ap (λ z. append z p) e ∙ nil-append p
