-- ===== src/Config/Sources/Spaces.antt =====
-- internal/scd/config/rules.go and internal/scd/apply/namespace.go: the namespaces of two sources whose
-- ids the rules accept.
use scd.Prelude.{
  ℕ, ◌≤◌, ◌≡◌, ◌≢◌, refl, sym, ◌⊎◌, inl, inr, String, Bool, true, false, ◌||◌, Option, none, some,
  string_eq, append, has_prefix, has_prefix_front, prefixes_comparable, dashed_comparable,
  has_prefix_rest, append_nothing, subst,
}
use scd.Xray.{Kind, outbound, inbound, routing}
use scd.Config.{PortRange, Source, Target}
use scd.Config.Sources.{prefix_of}
use scd.Apply.{Namespace, owns}

-- The namespace of a source on its target.
abbrev pub namespace : Target → Source → Namespace
namespace t src = record { obs_prefix = t.observatory_prefix; source_id = src.id }

abbrev pub InRange : Option PortRange → ℕ → Type 0
InRange none port = ⊥
InRange (some pr) port = (pr.start ≤ port) × (port ≤ pr.last)

-- Two sources that share no tag of any kind and no port.
abbrev pub Apart : Target → Source → Source → Type 0
Apart t x y =
    ((kind : Kind) (tag : String)
      → owns (namespace t x) kind tag ≡ true
      → owns (namespace t y) kind tag ≡ false)
    × ((port : ℕ) → InRange x.port_range port → ¬ InRange y.port_range port)

-- What checkSources demands of two ids, and of an id and the prefix of the observatory.
abbrev pub IdsApart : Source → Source → Type 0
IdsApart x y =
    (x.id ≢ y.id)
    × (has_prefix x.id (prefix_of y) ≡ false)
    × (has_prefix y.id (prefix_of x) ≡ false)

abbrev pub Outside : Target → Source → Type 0
Outside t x =
    (t.observatory_prefix ≡ "")
    ⊎ ((has_prefix t.observatory_prefix (prefix_of x) ≡ false)
        × (has_prefix (prefix_of x) t.observatory_prefix ≡ false))

prefixes_apart :
    (x y : Source) (s : String)
    → IdsApart x y
    → has_prefix s (prefix_of x) ≡ true
    → ¬ (has_prefix s (prefix_of y) ≡ true)
prefixes_apart x y s (ne, p, q) h k = elim (dashed_comparable s x.id y.id h k) [
  | inl e ↦ ne e
  | inr (inl e) ↦ cc
  | inr (inr e) ↦ cc
]

-- With one text in front: that of the inbounds, of the rules, or the prefix of the observatory.
fronted_apart :
    (front : String) (x y : Source) (tag : String)
    → IdsApart x y
    → has_prefix tag (append front (prefix_of x)) ≡ true
    → ¬ (has_prefix tag (append front (prefix_of y)) ≡ true)
fronted_apart front x y tag ids h k =
    let (rest, strip) = has_prefix_rest tag front (has_prefix_front tag front (prefix_of x) h) in
    prefixes_apart x y rest ids (strip (prefix_of x) h) (strip (prefix_of y) k)

observed_apart :
    (t : Target) (x y : Source) (tag : String)
    → IdsApart x y
    → Outside t y
    → has_prefix tag (append t.observatory_prefix (prefix_of x)) ≡ true
    → ¬ (has_prefix tag (prefix_of y) ≡ true)
observed_apart t x y tag ids (inl e) h k =
    prefixes_apart x y tag ids
      (subst (λ o. has_prefix tag o ≡ true) (append_nothing t.observatory_prefix (prefix_of x) e) h)
      k
observed_apart t x y tag ids (inr (p, q)) h k =
    elim (prefixes_comparable tag t.observatory_prefix (prefix_of y)
      (has_prefix_front tag t.observatory_prefix (prefix_of x) h) k) [ inl a ↦ cc | inr a ↦ cc ]

IdsApart-sym : (x y : Source) → IdsApart x y → IdsApart y x
IdsApart-sym x y (ne, p, q) = (λ e. ne (sym e), q, p)

or_cases : (a b : Bool) → (a || b) ≡ true → (a ≡ true) ⊎ (b ≡ true)
or_cases true b h = inl refl
or_cases false b h = inr h

false_of : (b : Bool) → ¬ (b ≡ true) → b ≡ false
false_of true h = absurd (h refl)
false_of false h = refl

pub namespaces_apart :
    (t : Target) (x y : Source)
    → IdsApart x y
    → Outside t x
    → Outside t y
    → (kind : Kind) (tag : String) → owns (namespace t x) kind tag ≡ true
    → owns (namespace t y) kind tag ≡ false
unfolding owns
namespaces_apart t x y ids ox oy outbound tag h = false_of _ λ k. elim (or_cases _ _ h) [
  | inl a ↦ elim (or_cases _ _ k) [
    | inl b ↦ fronted_apart t.observatory_prefix x y tag ids a b
    | inr b ↦ observed_apart t x y tag ids oy a b
  ]
  | inr a ↦ elim (or_cases _ _ k) [
    | inl b ↦ observed_apart t y x tag (IdsApart-sym x y ids) ox b a
    | inr b ↦ prefixes_apart x y tag ids a b
  ]
]
namespaces_apart t x y ids ox oy inbound tag h = false_of _ (fronted_apart "in-" x y tag ids h)
namespaces_apart t x y ids ox oy routing tag h = false_of _ (fronted_apart "route-" x y tag ids h)
