-- ===== src/Monitor/Tags.antt =====
-- internal/scd/monitor/repair.go: what a repair and a rejoin do to the tunnels of the target.
use scd.Prelude.{
  ◌≡◌, refl, sym, subst, String, true, false, some, List, [], ◌∷◌, ◌⊎◌, inl, inr, ◌==◌, string_eq,
  Bool-cases, Option-cases, All, Among, find_first-some, ==→eq, ==_refl, ne→==_false, ◌≢◌, arith,
  lookup,
}
use scd.Topology
use scd.Memory.{Tunnel, Target}
use scd.Memory.Tunnels.{reset_source_hashes}
use scd.Monitor.{update_first, view_tunnel, should_rejoin}

-- A tunnel with the prefixed tag x and the unprefixed tag y runs on one of them.
pub record OnOne (x y : String) (m : Topology.Tunnel) : Type 0 where
  pub initial : m.outbound_tag_initial ≡ x
  pub unprefixed : m.outbound_without_prefix.tag ≡ y
  pub initial_json : m.outbound_initial.json.tag ≡ x
  pub unprefixed_json : m.outbound_without_prefix.json.tag ≡ y
  pub current : (m.outbound_tag_current ≡ x) ⊎ (m.outbound_tag_current ≡ y)

-- Every tunnel of the id does.
abbrev pub Tags : {F : Type 0} → String → String → String → Target F → Type 0
Tags id x y t = All (λ tn. tn.mapping.base_tunnel_id ≡ id → OnOne x y tn.mapping) t.tunnels

pub update_first-All :
    (P : Tunnel → Type 0) (id : String) (f : Tunnel → Tunnel) (tns : List Tunnel)
    → ((tn : Tunnel) → P tn → P (f tn))
    → All P tns
    → All P (update_first id f tns)
unfolding update_first
update_first-All P id f [] g a = tt
update_first-All P id f (tn ∷ tns) g a = elim (Bool-cases (tn.mapping.base_tunnel_id == id)) [
  | inl y ↦ rw y (g tn a.0, a.1)
  | inr n ↦ rw n (a.0, update_first-All P id f tns g a.1)
]

All-among :
    (P : Tunnel → Type 0) (tns : List Tunnel) (tn : Tunnel) → Among tn tns → All P tns → P tn
All-among P [] tn m a = elim m [ ]
All-among P (u ∷ tns) tn (inl e) a = subst P (sym e) a.0
All-among P (u ∷ tns) tn (inr m) a = All-among P tns tn m a.1

module _ {F : Type 0} where
  pub reset-tunnels : (id : String) (t : Target F) → (reset_source_hashes id t).tunnels ≡ t.tunnels
  unfolding reset_source_hashes
  reset-tunnels id t = elim (Option-cases (lookup id t.sources)) [
    | inl n ↦ rw n refl
    | inr (src, e) ↦ rw e refl
  ]

  pub view-OnOne :
      (id x y : String) (t : Target F) (tn : Tunnel)
      → view_tunnel id t ≡ some tn
      → Tags id x y t
      → OnOne x y tn.mapping
  unfolding view_tunnel
  view-OnOne id x y t tn e a =
      let (same, among) = find_first-some _ t.tunnels tn e in
      All-among _ t.tunnels tn among a (==→eq _ id same)

-- A tunnel that stays out of the balancer, and one that does not, by where it runs.
pub rejoins-unprefixed :
    (x y : String) (m : Topology.Tunnel)
    → OnOne x y m
    → should_rejoin m ≡ true
    → m.outbound_tag_current ≡ y
unfolding should_rejoin
rejoins-unprefixed x y m o e = elim o.current [
  | inl i ↦
      let same = ==_refl x in
      let named : (m.outbound_tag_current == m.outbound_tag_initial) ≡ true =
        rw (i, o.initial) same in
      ground (arith, e, named)
  | inr u ↦ u
]

pub stays-initial :
    (x y : String) (m : Topology.Tunnel)
    → OnOne x y m
    → x ≢ y
    → should_rejoin m ≡ false
    → m.outbound_tag_current ≡ x
unfolding should_rejoin
stays-initial x y m o n e = elim o.current [
  | inl i ↦ i
  | inr u ↦
      let other = ne→==_false y x (λ s. n (sym s)) in
      let prefixed = ne→==_false x y n in
      let a : (m.outbound_tag_current == m.outbound_tag_initial) ≡ false =
        rw (u, o.initial) other in
      let c : (m.outbound_tag_initial == m.outbound_without_prefix.tag) ≡ false =
        rw (o.initial, o.unprefixed) prefixed in
      ground (arith, e, a, c)
]
