-- ===== src/Apply/Slots/Added.antt =====
-- internal/scd/apply/tunnel.go: AddTunnel on the plain model of Xray.
use scd.Prelude.{
  ◌≡◌, refl, ap, ◌∙◌, sym, subst, Bool, true, false, Option, none, some, List, [], ◌∷◌, ◌++◌,
}
use scd.Xray.{World, Error, ok, Handler, Kind, outbound, inbound, routing, add, remove}
use scd.Topology.{Tunnel}
use scd.Outbound.{Builder}
use scd.Apply.Slots.{Resources, wrapped, or_undo, add_new, add_tunnel}
use scd.Apply.Outbounds.Plain.{drop_tag, refused}
use scd.Apply.Slots.Three.{Lists, three, Absent, drop-Absent, drop_appended}

-- The outcomes of an addition: everything is there, or nothing has changed.
pub data Outcome (s : Lists) (h inb rule : Handler) : Option Error → Lists → Type 0 where
  done : Outcome s h inb rule none (record {
    outbounds = s.outbounds ++ h ∷ [];
    inbounds = s.inbounds ++ inb ∷ [];
    rules = s.rules ++ rule ∷ [];
  })
  undone : (e : Error) → Outcome s h inb rule (some e) s

-- The lists of before, under other names.
undone_as :
    (s : Lists) (h inb rule : Handler) (e : Error) (os is rs : List Handler)
    → os ≡ s.outbounds
    → is ≡ s.inbounds
    → rs ≡ s.rules
    → Outcome s h inb rule (some e) (record { outbounds = os; inbounds = is; rules = rs })
undone_as s h inb rule e os is rs p q r =
    subst (λ o. Outcome s h inb rule (some e) (record { outbounds = o; inbounds = is; rules = rs }))
      (sym p)
      (subst (λ i. Outcome s h inb rule (some e) (record s { inbounds = i; rules = rs })) (sym q)
        (subst (λ l. Outcome s h inb rule (some e) (record s { rules = l })) (sym r) (undone e)))

module _ (bad : Kind → Handler → Bool) (res : Resources) (next : Tunnel) (h inb : Handler) where
  abbrev rule : Handler
  rule = res.rule_of next next.outbound_tag_initial

  add_new-Outcome :
      (w : World Lists) (x y z : Bool)
      → bad outbound h ≡ x
      → bad inbound inb ≡ y
      → bad routing rule ≡ z
      → h.tag ≡ next.outbound_tag_initial
      → inb.tag ≡ next.inbound_tag
      → rule.tag ≡ next.route_tag
      → Absent h.tag w.server.outbounds
      → Absent inb.tag w.server.inbounds
      → Absent rule.tag w.server.rules
      → let r = add_new (three bad) res next (ok h) (ok inb) w in
        Outcome w.server h inb rule r.0 r.1.server
  unfolding add_new or_undo add remove
  add_new-Outcome w true y z p q r ht it rt a b c = rw p (
      subst
        (λ l.
          Outcome w.server h inb rule (some (wrapped refused)) (record w.server { outbounds = l }))
        (sym (
          ap (λ t. drop_tag t w.server.outbounds) (sym ht)
          ∙ drop-Absent h.tag w.server.outbounds a))
        (undone (wrapped refused)))
  add_new-Outcome w false true z p q r ht it rt a b c =
      rw (p, q)
        (subst
          (λ l.
            Outcome w.server h inb rule (some (wrapped refused))
              (record w.server { outbounds = l }))
          (sym (
            ap (λ t. drop_tag t (w.server.outbounds ++ h ∷ [])) (sym ht)
            ∙ drop_appended h w.server.outbounds a))
          (undone (wrapped refused)))
  add_new-Outcome w false false true p q r ht it rt a b c =
      rw (p, q, r)
        (undone_as w.server h inb rule (wrapped refused) _ _ _
          (ap (λ t. drop_tag t (w.server.outbounds ++ h ∷ [])) (sym ht)
            ∙ drop_appended h w.server.outbounds a)
          (ap (λ t. drop_tag t (w.server.inbounds ++ inb ∷ [])) (sym it)
            ∙ drop_appended inb w.server.inbounds b)
          (ap (λ t. drop_tag t w.server.rules) (sym rt) ∙ drop-Absent rule.tag w.server.rules c))
  add_new-Outcome w false false false p q r ht it rt a b c = rw (p, q, r) done

  -- AddTunnel of a tunnel that builds, into a model of Xray in which its tags are new and some additions
  -- may be refused: without an error the outbound, the inbound and the rule are there, each after what
  -- was there before; with an error the three lists are what they were.
  pub add_tunnel-Outcome :
      (b : Builder) (w : World Lists)
      → b.to_proto next.outbound_initial.json ≡ ok h
      → res.inbound_of next ≡ ok inb
      → h.tag ≡ next.outbound_tag_initial
      → inb.tag ≡ next.inbound_tag
      → rule.tag ≡ next.route_tag
      → Absent h.tag w.server.outbounds
      → Absent inb.tag w.server.inbounds
      → Absent rule.tag w.server.rules
      → let r = add_tunnel (three bad) res b next w in
        Outcome w.server h inb (res.rule_of next next.outbound_tag_initial) r.0 r.1.server
  unfolding add_tunnel
  add_tunnel-Outcome b w bh bi ht it rt x y z =
      rw (bh, bi)
        (add_new-Outcome w (bad outbound h) (bad inbound inb) (bad routing rule) refl refl refl ht
          it rt x y z)
