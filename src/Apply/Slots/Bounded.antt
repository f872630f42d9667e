-- ===== src/Apply/Slots/Bounded.antt =====
-- internal/scd/apply/tunnel.go: ReplaceTunnel on the plain model of Xray.
use scd.Prelude.{
  ℕ, suc, ◌≤◌, ◌<◌, ◌≡◌, refl, ap, ◌∙◌, sym, subst, String, Bool, true, false, not, ◌&&◌, Option,
  none, List, [], ◌∷◌, ◌++◌, contains, string_eq, ◌==◌, select, map, arith, Bool-cases, inl, inr,
  ==_refl, ==→eq,
}
use scd.Xray.{World, Error, Result, ok, err, Handler, Kind, outbound, inbound, routing, add, remove}
use scd.Topology.{Tunnel}
use scd.Outbound.{Builder}
use scd.Apply.{Owner}
use scd.Apply.Steps.{and_then-none}
use scd.Apply.Cap.{counts, count_owned}
use scd.Apply.Cap.Limit.{count_owned-append}
use scd.Apply.Outbounds.Plain.{drop_tag}
use scd.Apply.Slots.{
  Resources, chain, or_undo, add_tag, outbound_tags, remove_outbounds, remove_inbound,
  remove_tunnel, add_built, replace_built, replace_tunnel,
}
use scd.Apply.Slots.Three.{Lists, three}

-- The list without several tags.
drop_tags : List String → List Handler → List Handler
drop_tags [] hs = hs
drop_tags (t ∷ tags) hs = drop_tags tags (drop_tag t hs)

module _ (fixed : List String) (owner : Owner) where
  abbrev Fewer : List Handler → List Handler → Type 0
  Fewer hs xs = count_owned fixed owner hs ≤ count_owned fixed owner xs

  drop_tag-Fewer : (t : String) (hs : List Handler) → Fewer (drop_tag t hs) hs
  unfolding select
  drop_tag-Fewer t [] = omega arith
  drop_tag-Fewer t (h ∷ hs) = ground (arith, drop_tag-Fewer t hs)

  drop_tags-Fewer : (tags : List String) (hs : List Handler) → Fewer (drop_tags tags hs) hs
  unfolding drop_tags
  drop_tags-Fewer [] hs = omega arith
  drop_tags-Fewer (t ∷ tags) hs =
      omega (arith, drop_tags-Fewer tags (drop_tag t hs), drop_tag-Fewer t hs)

  head_less :
      (h : Handler) (hs : List Handler)
      → contains fixed h.tag ≡ false
      → owner outbound h.tag ≡ true
      → count_owned fixed owner (drop_tag h.tag (h ∷ hs)) < count_owned fixed owner (h ∷ hs)
  unfolding select counts
  head_less h hs f o = ground (arith, ==_refl h.tag, drop_tag-Fewer h.tag hs)

  -- A tag that is there and counts.
  drop_tag_less :
      (t : String) (hs : List Handler)
      → contains (map (λ h. h.tag) hs) t ≡ true
      → contains fixed t ≡ false
      → owner outbound t ≡ true
      → count_owned fixed owner (drop_tag t hs) < count_owned fixed owner hs
  unfolding select contains counts
  drop_tag_less t [] c f o = cc
  drop_tag_less t (h ∷ hs) c f o = elim (Bool-cases (t == h.tag)) [
    | inl e ↦
        subst
          (λ u. count_owned fixed owner (drop_tag u (h ∷ hs)) < count_owned fixed owner (h ∷ hs))
          (sym (==→eq t h.tag e))
          (head_less h hs (sym (ap (λ u. contains fixed u) (==→eq t h.tag e)) ∙ f)
            (sym (ap (λ u. owner outbound u) (==→eq t h.tag e)) ∙ o))
    | inr n ↦ ground (
      arith,
      drop_tag_less t hs,
      drop_tag-Fewer t hs,
      string_eq.beq_iff t h.tag,
      string_eq.beq_iff h.tag t,
    )
  ]

-- The tags of a tunnel, the current one first.
Starts : String → List String → Type 0
Starts t tags = (rest : List String) × (tags ≡ t ∷ rest)

add_tag-Starts :
    (t : String) (tags : List String) (tag : String) → Starts t tags → Starts t (add_tag tags tag)
unfolding add_tag Starts
add_tag-Starts t tags tag (rest, e) =
    elim (Bool-cases (not (tag == "") && not (contains tags tag))) [
      | inl y ↦ rw y (rest ++ tag ∷ [], ap (λ l. l ++ tag ∷ []) e)
      | inr n ↦ rw n (rest, e)
    ]

outbound_tags-Starts : (tn : Tunnel) → Starts tn.outbound_tag_current (outbound_tags tn)
unfolding outbound_tags Starts
outbound_tags-Starts tn =
    add_tag-Starts tn.outbound_tag_current _ tn.outbound_without_prefix.tag
      (add_tag-Starts tn.outbound_tag_current _ tn.outbound_tag_initial ([], refl))

module _ (bad : Kind → Handler → Bool) (res : Resources) (fixed : List String) (owner : Owner) where
  abbrev W : Type 0
  W = World Lists

  abbrev count : W → ℕ
  count w = count_owned fixed owner w.server.outbounds

  remove_outbounds_lem :
      (old : Tunnel) (tags : List String) (next : W → Option Error × W) (w : W)
      → (v : W) × ((remove_outbounds (three bad) res old tags next w ≡ next v)
          × (v.server.outbounds ≡ drop_tags tags w.server.outbounds))
  unfolding remove_outbounds or_undo remove drop_tags
  remove_outbounds_lem old [] next w = (w, (refl, refl))
  remove_outbounds_lem old (t ∷ tags) next w =
      remove_outbounds_lem old tags next (remove (three bad) outbound t w).1

  remove_tunnel_lem :
      (old : Tunnel) (w : W)
      → let r = (remove_tunnel (three bad) res old w).1 in
        (r.0 ≡ none) × (r.1.server.outbounds ≡ drop_tags (outbound_tags old) w.server.outbounds)
  unfolding remove_tunnel remove_inbound chain remove
  remove_tunnel_lem old w =
      let (v, (e, d)) =
        remove_outbounds_lem old (outbound_tags old) (remove_inbound (three bad) res old)
          (remove (three bad) routing old.route_tag w).1 in
      (ap (λ r. r.0) e, ap (λ r. r.1.server.outbounds) e ∙ d)

  add_built_lem :
      (next : Tunnel) (h inb : Handler) (w : W) (x y z : Bool)
      → bad outbound h ≡ x
      → bad inbound inb ≡ y
      → bad routing (res.rule_of next next.outbound_tag_initial) ≡ z
      → count (add_built (three bad) res next h inb w).1 ≤ suc (count w)
  unfolding add_built chain add
  add_built_lem next h inb w true y z p q r = rw p (omega arith)
  add_built_lem next h inb w false true z p q r =
      rw (p, q) (ground (arith, count_owned-append fixed owner w.server.outbounds h))
  add_built_lem next h inb w false false true p q r =
      rw (p, q, r) (ground (arith, count_owned-append fixed owner w.server.outbounds h))
  add_built_lem next h inb w false false false p q r =
      rw (p, q, r) (ground (arith, count_owned-append fixed owner w.server.outbounds h))

  drop_tags_less :
      (t : String) (tags : List String) (hs : List Handler)
      → Starts t tags
      → contains (map (λ h. h.tag) hs) t ≡ true
      → contains fixed t ≡ false
      → owner outbound t ≡ true
      → count_owned fixed owner (drop_tags tags hs) < count_owned fixed owner hs
  unfolding Starts
  drop_tags_less t tags hs (rest, e) c f o =
      subst (λ l. count_owned fixed owner (drop_tags l hs) < count_owned fixed owner hs) (sym e)
        (unfold drop_tags in
          omega (
            arith,
            drop_tags-Fewer fixed owner rest (drop_tag t hs),
            drop_tag_less fixed owner t hs c f o,
          ))

  replace_built-Bounded :
      (old next : Tunnel) (rh ri : Result Handler) (w : W)
      → contains (map (λ h. h.tag) w.server.outbounds) old.outbound_tag_current ≡ true
      → contains fixed old.outbound_tag_current ≡ false
      → owner outbound old.outbound_tag_current ≡ true
      → count (replace_built (three bad) res old next rh ri w).1.1 ≤ count w
  unfolding replace_built
  replace_built-Bounded old next (err e) ri w c f o = omega arith
  replace_built-Bounded old next (ok h) (err e) w c f o = omega arith
  replace_built-Bounded old next (ok h) (ok inb) w c f o =
      let r = (remove_tunnel (three bad) res old w).1 in
      let (n, d) = remove_tunnel_lem old w in
      let go = add_built (three bad) res next h inb in
      let added =
        add_built_lem next h inb r.1 (bad outbound h) (bad inbound inb)
          (bad routing (res.rule_of next next.outbound_tag_initial)) refl refl refl in
      let same = ap (λ x. count x.1) (and_then-none r go n) in
      let fewer =
        drop_tags_less old.outbound_tag_current (outbound_tags old) w.server.outbounds
          (outbound_tags-Starts old) c f o in
      let left = ap (λ l. count_owned fixed owner l) d in omega (arith, added, same, fewer, left)

  -- In a model of Xray where any addition may be refused, ReplaceTunnel of a tunnel whose current
  -- outbound is listed, owned and not fixed never raises the number of the owned outbounds.
  pub replace_tunnel-Bounded :
      (b : Builder) (old next : Tunnel) (w : World Lists)
      → contains (map (λ h. h.tag) w.server.outbounds) old.outbound_tag_current ≡ true
      → contains fixed old.outbound_tag_current ≡ false
      → owner outbound old.outbound_tag_current ≡ true
      → count_owned fixed owner (replace_tunnel (three bad) res b old next w).1.1.server.outbounds
        ≤ count_owned fixed owner w.server.outbounds
  unfolding replace_tunnel
  replace_tunnel-Bounded b old next w =
      replace_built-Bounded old next (b.to_proto next.outbound_initial.json) (res.inbound_of next) w
