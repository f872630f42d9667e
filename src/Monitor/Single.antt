-- ===== src/Monitor/Single.antt =====
-- internal/scd/monitor/repair.go: the calls of a repair and of a rejoin on an Xray that removes what it
-- says it removed.
use scd.Prelude.{
  ◌≡◌, ◌≢◌, refl, sym, ap, ◌∙◌, subst, String, Bool, true, false, ◌&&◌, Option, none, some,
  string_eq, Bool-cases, inl, inr, arith, Option-cases,
}
use scd.Xray.{Server, World, Error, Result, ok, err, Handler, Kind, outbound, routing, add, remove}
use scd.Topology.{Tunnel}
use scd.Outbound.{Spec, Builder}
use scd.Apply.Slots.{Resources}
use scd.Monitor.Calls.{
  rule_added, restore, remove_tunnel, repair_built, repair_removed, repair_calls, add_repaired,
  roll_back, or_roll_back, add_rejoined, rejoin_removed, rejoin_built, rejoin_calls,
}

-- Every outbound of the second state is one of the first.
abbrev pub Shrinks : {S : Type 0} → (String → S → Bool) → S → S → Type 0
Shrinks has s s' = (tag : String) → has tag s' ≡ true → has tag s ≡ true

-- Which outbounds Xray runs, as it documents its API: only an addition of an outbound makes one, of its
-- own tag, even if it fails, and a removal without an error leaves none of the tag.
pub record Documented {S : Type 0} (srv : Server S) (has : String → S → Bool) : Type 0 where
  pub lists_shrink : (k : Kind) (s : S) → Shrinks has s (srv.list k s).1
  pub removes_shrink : (k : Kind) (t : String) (s : S) → Shrinks has s (srv.remove k t s).1
  pub removed :
      (t : String) (s : S)
      → (srv.remove outbound t s).0 ≡ none
      → has t (srv.remove outbound t s).1 ≡ false
  pub rules_shrink : (h : Handler) (s : S) → Shrinks has s (srv.add routing h s).1
  pub added :
      (h : Handler) (s : S) (tag : String)
      → tag ≢ h.tag
      → has tag (srv.add outbound h s).1 ≡ true
      → has tag s ≡ true

-- ToProto keeps the tag.
abbrev pub Tagged : Builder → Type 0
Tagged b = (spec : Spec) (h : Handler) → b.to_proto spec ≡ ok h → h.tag ≡ spec.tag

abbrev pub both : {S : Type 0} → (String → S → Bool) → String → String → S → Bool
both has x y s = has x s && has y s

module _ {S : Type 0} (has : String → S → Bool) where
  pub Shrinks-free :
      (s s' : S) (tag : String) → Shrinks has s s' → has tag s ≡ false → has tag s' ≡ false
  Shrinks-free s s' tag sh f = elim (Bool-cases (has tag s')) [ inl y ↦ cc (sh tag y) | inr n ↦ n ]

  pub Shrinks-trans : (s s' s'' : S) → Shrinks has s s' → Shrinks has s' s'' → Shrinks has s s''
  Shrinks-trans s s' s'' f g = λ tag e. f tag (g tag e)

  pub free_fst : (x y : String) (s : S) → has x s ≡ false → both has x y s ≡ false
  free_fst x y s e = ground (arith, e)

  pub free_snd : (x y : String) (s : S) → has y s ≡ false → both has x y s ≡ false
  free_snd x y s e = ground (arith, e)

  pub Shrinks-both :
      (s s' : S) (x y : String)
      → Shrinks has s s'
      → both has x y s ≡ false
      → both has x y s' ≡ false
  Shrinks-both s s' x y sh f = elim (Bool-cases (has x s)) [
    | inl a ↦ free_snd x y s' (Shrinks-free s s' y sh (ground (arith, a, f)))
    | inr a ↦ free_fst x y s' (Shrinks-free s s' x sh a)
  ]

module _ {S : Type 0} (srv : Server S) (has : String → S → Bool) (d : Documented srv has)
    (res : Resources) where
  abbrev W : Type 0
  W = World S

  add_free :
      (h : Handler) (w : W) (tag : String)
      → tag ≢ h.tag
      → has tag w.server ≡ false
      → has tag (add srv outbound h w).1.server ≡ false
  unfolding add
  add_free h w tag n f = elim (Bool-cases (has tag (srv.add outbound h w.server).1)) [
    | inl y ↦ cc (d.added h w.server tag n y)
    | inr e ↦ e
  ]

  rule-Shrinks : (tn : Tunnel) (w : W) → Shrinks has w.server (rule_added srv res tn w).1.server
  unfolding add
  rule-Shrinks tn w = d.rules_shrink _ w.server

  restore-Shrinks :
      (cur : Tunnel) (r : Option Error × W)
      → Shrinks has r.1.server (restore srv res cur r).1.server
  restore-Shrinks cur (none, w) = λ tag e. e
  restore-Shrinks cur (some e, w) = rule-Shrinks cur w

  remove_tunnel-Shrinks :
      (cur : Tunnel) (w : W) → Shrinks has w.server (remove_tunnel srv res cur w).1.server
  unfolding remove_tunnel remove
  remove_tunnel-Shrinks cur w =
      let v = (remove srv routing cur.route_tag w).1 in
      Shrinks-trans has _ _ _
        (Shrinks-trans has _ _ _ (d.removes_shrink routing cur.route_tag w.server)
          (d.removes_shrink outbound cur.outbound_tag_current v.server))
        (restore-Shrinks cur (remove srv outbound cur.outbound_tag_current v))

  restore-none :
      (cur : Tunnel) (r : Option Error × W)
      → (restore srv res cur r).0 ≡ none
      → (r.0 ≡ none) × (restore srv res cur r ≡ r)
  restore-none cur (none, w) e = (refl, refl)
  restore-none cur (some x, w) e = cc

  remove_tunnel-free :
      (cur : Tunnel) (w : W)
      → (remove_tunnel srv res cur w).0 ≡ none
      → has cur.outbound_tag_current (remove_tunnel srv res cur w).1.server ≡ false
  unfolding remove_tunnel remove
  remove_tunnel-free cur w e =
      let v = (remove srv routing cur.route_tag w).1 in
      let (n, same) = restore-none cur (remove srv outbound cur.outbound_tag_current v) e in
      ap (λ r. has cur.outbound_tag_current r.1.server) same
      ∙ d.removed cur.outbound_tag_current v.server n

  -- The calls of a repair, from the removal on.
  repair_removed-both :
      (x y : String) (repaired : Tunnel) (h : Handler) (r : Option Error × W)
      → x ≢ h.tag
      → both has x y r.1.server ≡ false
      → (r.0 ≡ none → has x r.1.server ≡ false)
      → both has x y (repair_removed srv res repaired h r).1.1.server ≡ false
  repair_removed-both x y repaired h (some e, w) n f g = f
  repair_removed-both x y repaired h (none, w) n f g =
      added (add srv outbound h w) (add_free h w x n (g refl))
    where
      added :
          (r : Option Error × W)
          → has x r.1.server ≡ false
          → both has x y (add_repaired srv res repaired r).1.1.server ≡ false
      added (some e, v) k = free_fst has x y v.server k
      added (none, v) k =
          free_fst has x y _ (Shrinks-free has v.server _ x (rule-Shrinks repaired v) k)

  pub repair_calls-both :
      (b : Builder) (x y : String) (cur repaired : Tunnel) (w : W)
      → Tagged b
      → cur.outbound_tag_current ≡ x
      → repaired.outbound_without_prefix.json.tag ≡ y
      → x ≢ y
      → both has x y w.server ≡ false
      → both has x y (repair_calls srv res b cur repaired w).1.1.server ≡ false
  unfolding repair_calls
  repair_calls-both b x y cur repaired w tagged c p n f =
      built (b.to_proto repaired.outbound_without_prefix.json) refl
    where
      built :
          (h : Result Handler)
          → b.to_proto repaired.outbound_without_prefix.json ≡ h
          → both has x y (repair_built srv res cur repaired h w).1.1.server ≡ false
      built (err e) q = f
      built (ok h) q =
          let r = remove_tunnel srv res cur w in
          repair_removed-both x y repaired h r (λ e. n (e ∙ (tagged _ h q ∙ p)))
            (Shrinks-both has w.server r.1.server x y (remove_tunnel-Shrinks cur w) f)
            (λ e. subst (λ t. has t r.1.server ≡ false) c (remove_tunnel-free cur w e))

  -- The rollback of a rejoin, when the unprefixed outbound is not there.
  roll_back-both :
      (x y : String) (cur rejoined : Tunnel) (unprefixed : Handler) (e : Error) (w : W)
      → rejoined.outbound_tag_current ≡ x
      → x ≢ unprefixed.tag
      → has y w.server ≡ false
      → both has x y
          (roll_back srv res cur unprefixed e
            (remove srv outbound rejoined.outbound_tag_current w)).1.server
        ≡ false
  unfolding remove
  roll_back-both x y cur rejoined unprefixed e w c n f =
      elim (Option-cases (srv.remove outbound rejoined.outbound_tag_current w.server).0) [
        | inl gone ↦
            let v = (remove srv outbound rejoined.outbound_tag_current w).1 in
            let u = (add srv outbound unprefixed v).1 in
            let free =
              subst (λ t. has t v.server ≡ false) c
                (d.removed rejoined.outbound_tag_current w.server gone) in
            rw gone (
              free_fst has x y _ (
                Shrinks-free has u.server _ x (rule-Shrinks cur u)
                  (add_free unprefixed v x n free)))
        | inr (stuck, k) ↦ rw k (
            free_snd has x y _ (
              Shrinks-free has w.server _ y
                (d.removes_shrink outbound rejoined.outbound_tag_current w.server) f))
      ]

  -- The calls of a rejoin, from the removal on.
  rejoin_removed-both :
      (x y : String) (cur rejoined : Tunnel) (initial unprefixed : Handler) (r : Option Error × W)
      → rejoined.outbound_tag_current ≡ x
      → x ≢ unprefixed.tag
      → y ≢ initial.tag
      → both has x y r.1.server ≡ false
      → (r.0 ≡ none → has y r.1.server ≡ false)
      → both has x y (rejoin_removed srv res cur rejoined initial unprefixed r).1.server ≡ false
  rejoin_removed-both x y cur rejoined initial unprefixed (some e, w) c n m f g = f
  rejoin_removed-both x y cur rejoined initial unprefixed (none, w) c n m f g =
      undone (add_rejoined srv res rejoined (add srv outbound initial w))
        (added (add srv outbound initial w) (add_free initial w y m (g refl)))
    where
      added :
          (r : Option Error × W)
          → has y r.1.server ≡ false
          → has y (add_rejoined srv res rejoined r).1.server ≡ false
      added (some e, v) k = k
      added (none, v) k = Shrinks-free has v.server _ y (rule-Shrinks rejoined v) k

      undone :
          (r : Option Error × W)
          → has y r.1.server ≡ false
          → both has x y (or_roll_back srv res cur rejoined unprefixed r).1.server ≡ false
      undone (none, v) k = free_snd has x y v.server k
      undone (some e, v) k = roll_back-both x y cur rejoined unprefixed e v c n k

  pub rejoin_calls-both :
      (b : Builder) (x y : String) (cur rejoined : Tunnel) (w : W)
      → Tagged b
      → cur.outbound_tag_current ≡ y
      → rejoined.outbound_tag_current ≡ x
      → rejoined.outbound_initial.json.tag ≡ x
      → cur.outbound_without_prefix.json.tag ≡ y
      → x ≢ y
      → both has x y w.server ≡ false
      → both has x y (rejoin_calls srv res b cur rejoined w).1.server ≡ false
  unfolding rejoin_calls
  rejoin_calls-both b x y cur rejoined w tagged c z i p n f =
      built (b.to_proto rejoined.outbound_initial.json)
        (b.to_proto cur.outbound_without_prefix.json) refl refl
    where
      built :
          (h u : Result Handler)
          → b.to_proto rejoined.outbound_initial.json ≡ h
          → b.to_proto cur.outbound_without_prefix.json ≡ u
          → both has x y (rejoin_built srv res cur rejoined h u w).1.server ≡ false
      built (err e) u q k = f
      built (ok h) (err e) q k = f
      built (ok h) (ok u) q k =
          let r = remove_tunnel srv res cur w in
          rejoin_removed-both x y cur rejoined h u r z (λ e. n (e ∙ (tagged _ u k ∙ p)))
            (λ e. n (sym (e ∙ (tagged _ h q ∙ i))))
            (Shrinks-both has w.server r.1.server x y (remove_tunnel-Shrinks cur w) f)
            (λ e. subst (λ t. has t r.1.server ≡ false) c (remove_tunnel-free cur w e))
