-- ===== src/Monitor/Recovery.antt =====
-- internal/scd/monitor: a failed check, its repair, and the check that passes after it, on three lists
-- that accept every addition.
use scd.Prelude.{
  ℕ, ◌≡◌, ◌≢◌, refl, sym, ap, subst, ◌∙◌, String, true, false, Option, none, some, List, [], ◌∷◌,
  ◌++◌, ◌==◌, string_eq, Bool-cases, inl, inr, any, contains, ==_refl, ne→==_false, arith, lookup,
}
use scd.Xray.{World, Error, ok, Handler}
use scd.Topology
use scd.Outbound.{Builder}
use scd.Apply.Outbounds.Plain.{drop_tag}
use scd.Apply.Slots.{Resources}
use scd.Apply.Slots.Three.{Lists, three}
use scd.Memory.{Tunnel, Target, Source, healthy}
use scd.Monitor.{Line, should_rejoin, view_tunnel, update_tunnel}
use scd.Monitor.Plain.{tags, listed, appended, dropped}
use scd.Monitor.Probe.{Response}
use scd.Monitor.Check.{
  check_failed, check_passed, failed_check, passed_check, passed_monitor, revive, after_passed,
  rejoin_refused,
}
use scd.Monitor.Repair.{Run, repair, on_unprefixed, on_initial}
use scd.Monitor.Rejoin.{rejoin}
use scd.Monitor.Accepted.{accepts, view-update, repaired-view, rejoined-view}

module _ {F : Type 0} where
  failed-view :
      (id source_id msg : String) (now : ℕ) (t : Target F) (cur : Tunnel)
      → view_tunnel id t ≡ some cur
      → view_tunnel id (check_failed id source_id msg now t).0 ≡ some (failed_check msg now cur)
  unfolding check_failed
  failed-view id source_id msg now t cur v =
      view-update id id (failed_check msg now) t cur refl (λ u. refl) v

  revive-view :
      (id source_id : String) (now : ℕ) (o : Option (Source F)) (t : Target F)
      → view_tunnel id (revive id source_id now o t).0 ≡ view_tunnel id t
  unfolding view_tunnel
  revive-view id source_id now none t = refl
  revive-view id source_id now (some src) t = refl

  passed-view :
      (id source_id : String) (r : Response) (now : ℕ) (t : Target F) (cur : Tunnel)
      → view_tunnel id t ≡ some cur
      → view_tunnel id (check_passed id source_id r now t).0.0 ≡ some (passed_check r now cur)
  unfolding check_passed
  passed-view id source_id r now t cur v =
      let t' : Target F = update_tunnel id (passed_check r now) t in
      revive-view id source_id now (lookup source_id t'.sources) t'
      ∙ view-update id id (passed_check r now) t cur refl (λ u. refl) v

last_listed : (g : Handler) (hs : List Handler) → contains (tags (hs ++ g ∷ [])) g.tag ≡ true
unfolding contains
last_listed g [] = ground (arith, ==_refl g.tag)
last_listed g (h ∷ hs) = ground (arith, last_listed g hs)

others_absent :
    (g : Handler) (y : String) (hs : List Handler)
    → y ≢ g.tag
    → contains (tags (drop_tag y hs ++ g ∷ [])) y ≡ false
others_absent g y hs n = elim (Bool-cases (contains (tags (drop_tag y hs ++ g ∷ [])) y)) [
  | inl e ↦ cc (appended g y (drop_tag y hs) n e, dropped y hs)
  | inr e ↦ e
]

balanced :
    (m : Topology.Tunnel)
    → m.outbound_tag_current ≡ m.outbound_tag_initial
    → should_rejoin m ≡ false
unfolding should_rejoin
balanced m c =
    let same : (m.outbound_tag_current == m.outbound_tag_initial) ≡ true =
      rw c (==_refl m.outbound_tag_initial) in
    ground (arith, same)

withdrawn :
    (m : Topology.Tunnel)
    → m.outbound_tag_initial ≢ m.outbound_without_prefix.tag
    → should_rejoin (on_unprefixed m) ≡ true
unfolding should_rejoin
withdrawn m n =
    let other = ne→==_false m.outbound_tag_initial m.outbound_without_prefix.tag n in
    let back = ne→==_false m.outbound_without_prefix.tag m.outbound_tag_initial (λ e. n (sym e)) in
    ground (arith, other, back)

back_again :
    (m : Topology.Tunnel)
    → m.outbound_tag_current ≡ m.outbound_tag_initial
    → on_initial (on_unprefixed m) ≡ m
back_again m c = ap (λ tag. record m { outbound_tag_current = tag }) (sym c)

healthy_after :
    (r : Response) (now : ℕ) (cur : Tunnel) → (passed_check r now cur).monitor.state ≡ healthy
unfolding passed_monitor
healthy_after r now cur = refl

module _ {F : Type 0} (res : Resources) (b : Builder) where
  -- checkTunnel after a failed check without a replacement, and after the next one, which passes.
  abbrev pub down_and_up :
      String → String → String → Response → ℕ → ℕ → ℕ → ℕ → ℕ → Target F → World Lists → Run F Lists
  down_and_up id source_id msg r failed noted ended now rejoined t w =
      let t' = (check_failed id source_id msg failed t).0 in
      let repaired = (repair (three accepts) res b id none noted ended t' w).1 in
      after_passed (three accepts) res b id source_id r none now rejoined repaired.target
        repaired.world

  refused-none :
      (id : String) (lines : List Line) (p : Option Error × Run F Lists)
      → p.0 ≡ none
      → ((rejoin_refused id lines p).target ≡ p.1.target)
        × ((rejoin_refused id lines p).world ≡ p.1.world)
  unfolding rejoin_refused
  refused-none id lines (none, run) e = (refl, refl)
  refused-none id lines (some x, run) e = cc

  up :
      (id source_id : String) (r : Response) (now rejoined : ℕ) (t : Target F) (w : World Lists)
      (cur : Tunnel) (g h : Handler)
      → view_tunnel id t ≡ some cur
      → should_rejoin cur.mapping ≡ true
      → b.to_proto cur.mapping.outbound_initial.json ≡ ok g
      → b.to_proto cur.mapping.outbound_without_prefix.json ≡ ok h
      → let run = after_passed (three accepts) res b id source_id r none now rejoined t w in
        ((tn : Tunnel) × ((view_tunnel id run.target ≡ some tn)
            × ((tn.mapping ≡ on_initial cur.mapping) × (tn.monitor.state ≡ healthy))))
        × (run.world.server.outbounds
            ≡ drop_tag cur.mapping.outbound_tag_current w.server.outbounds ++ g ∷ [])
  unfolding after_passed
  up id source_id r now rejoined t w cur g h v j e f =
      let passed = check_passed id source_id r now t in
      let p = rejoin (three accepts) res b id none passed.1 rejoined passed.0.0 w in
      let (n, ((tn, (view, (mapping, state))), outs)) =
        rejoined-view res b id passed.1 rejoined passed.0.0 w (passed_check r now cur) g h
          (passed-view id source_id r now t cur v) j e f in
      let (target, world) = refused-none id passed.0.1 p n in
      (
        (
          tn,
          (ap (λ u. view_tunnel id u) target ∙ view, (mapping, state ∙ healthy_after r now cur)),
        ),
        ap (λ u. u.server.outbounds) world ∙ outs,
      )

  -- A tunnel on its prefixed outbound, whose inbound Xray has, whose check fails and whose next check
  -- passes, with no call to Xray refused: the tunnel is then healthy and recorded on its prefixed
  -- outbound again, and Xray runs that one and not the unprefixed one.
  pub down_and_up-Recovers :
      (id source_id msg : String) (r : Response) (failed noted ended now rejoined : ℕ)
      (t : Target F) (w : World Lists) (cur : Tunnel) (g h : Handler)
      → view_tunnel id t ≡ some cur
      → cur.mapping.outbound_tag_current ≡ cur.mapping.outbound_tag_initial
      → cur.mapping.outbound_tag_initial ≢ cur.mapping.outbound_without_prefix.tag
      → any (λ i. i.tag == cur.mapping.inbound_tag) w.server.inbounds ≡ true
      → b.to_proto cur.mapping.outbound_initial.json ≡ ok g
      → b.to_proto cur.mapping.outbound_without_prefix.json ≡ ok h
      → g.tag ≡ cur.mapping.outbound_tag_initial
      → let run = down_and_up id source_id msg r failed noted ended now rejoined t w in
        ((tn : Tunnel) × ((view_tunnel id run.target ≡ some tn)
            × ((tn.mapping ≡ cur.mapping) × (tn.monitor.state ≡ healthy))))
        × ((listed cur.mapping.outbound_tag_initial run.world.server ≡ true)
            × (listed cur.mapping.outbound_without_prefix.tag run.world.server ≡ false))
  down_and_up-Recovers id source_id msg r failed noted ended now rejoined t w cur g h v c n i e f
        k =
      let m = cur.mapping in
      let t' = (check_failed id source_id msg failed t).0 in
      let run = (repair (three accepts) res b id none noted ended t' w).1 in
      let ((tn, (view, moved)), outs) =
        repaired-view res b id noted ended t' w (failed_check msg failed cur) h
          (failed-view id source_id msg failed t cur v) (balanced m c) i f in
      let ((last, (final, (mapping, state))), after) =
        up id source_id r now rejoined run.target run.world tn g h view
          (ap (λ x. should_rejoin x) moved ∙ withdrawn m n)
          (ap (λ x. b.to_proto x.outbound_initial.json) moved ∙ e)
          (ap (λ x. b.to_proto x.outbound_without_prefix.json) moved ∙ f) in
      let gone =
        ap (λ x. drop_tag x.outbound_tag_current run.world.server.outbounds ++ g ∷ []) moved in
      let ends = after ∙ gone in
      let rest = drop_tag m.outbound_without_prefix.tag run.world.server.outbounds in
      (
        (last, (final, (mapping ∙ (ap (λ x. on_initial x) moved ∙ back_again m c), state))),
        (
          ap (λ hs. contains (tags hs) m.outbound_tag_initial) ends
              ∙ subst (λ x. contains (tags (rest ++ g ∷ [])) x ≡ true) k (last_listed g rest),
          ap (λ hs. contains (tags hs) m.outbound_without_prefix.tag) ends
              ∙ others_absent g m.outbound_without_prefix.tag run.world.server.outbounds
                  (λ x. n (sym (x ∙ k))),
        ),
      )
