-- ===== src/Topology/Spaces.antt =====
-- internal/scd/topology and internal/scd/apply/namespace.go: the tags of a tunnel and the namespace of
-- its source.
use text.Mathlib.TextLemmas.{append_assoc}
use text.Mathlib.TextEquality.{starts_with_iff}
use scd.Prelude.{
  ℕ, ◌≡◌, refl, sym, subst, ◌==◌, string_eq, Bool-cases, ap, ◌∙◌, String, Bool, true, ◌||◌, append,
  has_prefix, arith, inl, inr,
}
use scd.Xray.{outbound, inbound, routing}
use scd.Config.{Target}
use scd.Outbound.{Builder}
use scd.Manifest.{Entry}
use scd.Apply.{Namespace, owns}
use scd.Topology.{new_tunnel, prepare}

has_prefix-append :
    (front s p : String)
    → has_prefix s p ≡ true
    → has_prefix (append front s) (append front p) ≡ true
has_prefix-append front s p h =
    let (rest, e) = (starts_with_iff s p).0 h in
    (starts_with_iff (append front s) (append front p)).1
      (rest, append_assoc front p rest ∙ ap (λ x. append front x) e)

first_holds : (a b : Bool) → a ≡ true → (a || b) ≡ true
first_holds a b h = ground arith

second_holds : (a b : Bool) → b ≡ true → (a || b) ≡ true
second_holds a b h = ground arith

tag-prepare :
    {F : Type 0} (b : Builder) (e : Entry F) (t : Target) (tag : String)
    → (prepare b e t tag).tag ≡ tag
unfolding prepare
tag-prepare b e t tag = elim (Bool-cases (e.protocol == "")) [
  | inl y ↦ rw y refl
  | inr n ↦ rw n refl
]

-- The tunnel of an entry whose tag starts with the source's id and a dash lies in the source's
-- namespace: both its outbound tags, its inbound tag and its route tag.
pub new_tunnel-Owned :
    {F : Type 0} (b : Builder) (e : Entry F) (n : Namespace) (t : Target) (listen : String)
    (port : ℕ)
    → has_prefix e.tag (append n.source_id "-") ≡ true
    → n.obs_prefix ≡ t.observatory_prefix
    → let tn = new_tunnel b e n.source_id t listen port in
      (owns n outbound tn.outbound_tag_current ≡ true)
      × (owns n outbound tn.outbound_without_prefix.tag ≡ true)
      × (owns n inbound tn.inbound_tag ≡ true)
      × (owns n routing tn.route_tag ≡ true)
unfolding owns new_tunnel
new_tunnel-Owned b e n t listen port h p =
    let own = append n.source_id "-" in
    (
      first_holds _ _ (
          subst (λ x. has_prefix (append t.observatory_prefix e.tag) (append x own) ≡ true) (sym p)
            (has_prefix-append t.observatory_prefix e.tag own h)),
      second_holds _ _ (subst (λ x. has_prefix x own ≡ true) (sym (tag-prepare b e t e.tag)) h),
      has_prefix-append "in-" e.tag own h,
      has_prefix-append "route-" e.tag own h,
    )
