-- ===== src/Monitor/Accepted.antt =====
-- internal/scd/monitor/repair.go: a repair and a rejoin on three lists that accept every addition.
use scd.Prelude.{
  ℕ, ◌≡◌, refl, sym, ap, subst, ◌∙◌, String, Bool, true, false, Option, none, some, List, [], ◌∷◌,
  ◌++◌, ◌==◌, string_eq, Bool-cases, inl, inr, any, find_first, find_first-some, ==→eq, lookup,
}
use scd.Xray.{World, ok, Handler, Kind, list, add, remove}
use scd.Topology
use scd.Outbound.{Builder}
use scd.Apply.Outbounds.Plain.{drop_tag}
use scd.Apply.Slots.{Resources}
use scd.Apply.Slots.Three.{Lists, three}
use scd.Memory.{Tunnel, Target, source_waiting}
use scd.Monitor.{should_rejoin, view_tunnel, update_tunnel, update_first}
use scd.Monitor.Calls.{has_inbound, remove_tunnel, repair_calls, rejoin_calls}
use scd.Monitor.Repair.{
  repair, repair_done, noted_xray, on_unprefixed, on_initial, begun, repaired_tunnel, reset_of,
}
use scd.State.{answered}
use scd.Monitor.Rejoin.{rejoin, rejoin_done, rejoined_tunnel}

abbrev pub accepts : Kind → Handler → Bool
accepts kind h = false

-- The first tunnel of an id is still the first one after an update that keeps the ids.
updated_first :
    (id : String) (f : Tunnel → Tunnel) (tns : List Tunnel) (tn : Tunnel)
    → ((u : Tunnel) → (f u).mapping.base_tunnel_id ≡ u.mapping.base_tunnel_id)
    → find_first (λ u. u.mapping.base_tunnel_id == id) tns ≡ some tn
    → find_first (λ u. u.mapping.base_tunnel_id == id) (update_first id f tns) ≡ some (f tn)
unfolding find_first update_first
updated_first id f [] tn s e = cc
updated_first id f (u ∷ tns) tn s e = elim (Bool-cases (u.mapping.base_tunnel_id == id)) [
  | inl y ↦
      let head : find_first (λ v. v.mapping.base_tunnel_id == id) (u ∷ tns) ≡ some u = rw y refl in
      let same : some (f u) ≡ some (f tn) =
        ap (λ o. elim o [ none ↦ none | some v ↦ some (f v) ]) (sym head ∙ e) in
      let again : ((f u).mapping.base_tunnel_id == id) ≡ true = ap (λ x. x == id) (s u) ∙ y in
      rw (y, again) same
  | inr n ↦
      let tail : find_first (λ v. v.mapping.base_tunnel_id == id) (u ∷ tns)
          ≡ find_first (λ v. v.mapping.base_tunnel_id == id) tns =
        rw n refl in
      rw (n, n) (updated_first id f tns tn s (sym tail ∙ e))
]

module _ {F : Type 0} where
  pub view-update :
      (id other : String) (f : Tunnel → Tunnel) (t : Target F) (tn : Tunnel)
      → other ≡ id
      → ((u : Tunnel) → (f u).mapping.base_tunnel_id ≡ u.mapping.base_tunnel_id)
      → view_tunnel id t ≡ some tn
      → view_tunnel id (update_tunnel other f t) ≡ some (f tn)
  unfolding view_tunnel update_tunnel
  view-update id other f t tn same s e =
      subst (λ o. view_tunnel id (update_tunnel o f t) ≡ some (f tn)) (sym same)
        (updated_first id f t.tunnels tn s e)

  view-id :
      (id : String) (t : Target F) (tn : Tunnel)
      → view_tunnel id t ≡ some tn
      → tn.mapping.base_tunnel_id ≡ id
  unfolding view_tunnel
  view-id id t tn e = ==→eq _ id (find_first-some _ t.tunnels tn e).0

module _ (res : Resources) (b : Builder) where
  repair_calls-accepted :
      (cur repaired : Topology.Tunnel) (h : Handler) (w : World Lists)
      → b.to_proto repaired.outbound_without_prefix.json ≡ ok h
      → let r = repair_calls (three accepts) res b cur repaired w in
        (r.0 ≡ true)
        × ((r.1.0 ≡ none)
            × (r.1.1.server.outbounds
                ≡ drop_tag cur.outbound_tag_current w.server.outbounds ++ h ∷ []))
  unfolding repair_calls remove_tunnel add remove
  repair_calls-accepted cur repaired h w e = rw e (refl, (refl, refl))

  rejoin_calls-accepted :
      (cur rejoined : Topology.Tunnel) (g h : Handler) (w : World Lists)
      → b.to_proto rejoined.outbound_initial.json ≡ ok g
      → b.to_proto cur.outbound_without_prefix.json ≡ ok h
      → let r = rejoin_calls (three accepts) res b cur rejoined w in
        (r.0 ≡ none)
        × (r.1.server.outbounds ≡ drop_tag cur.outbound_tag_current w.server.outbounds ++ g ∷ [])
  unfolding rejoin_calls remove_tunnel add remove
  rejoin_calls-accepted cur rejoined g h w e f = rw (e, f) (refl, refl)

module _ {F : Type 0} (res : Resources) (b : Builder) where
  -- A repair that nothing refuses.
  pub repaired-view :
      (id : String) (noted ended : ℕ) (t : Target F) (w : World Lists) (cur : Tunnel) (h : Handler)
      → view_tunnel id t ≡ some cur
      → should_rejoin cur.mapping ≡ false
      → any (λ i. i.tag == cur.mapping.inbound_tag) w.server.inbounds ≡ true
      → b.to_proto cur.mapping.outbound_without_prefix.json ≡ ok h
      → let r = (repair (three accepts) res b id none noted ended t w).1 in
        ((tn : Tunnel) × ((view_tunnel id r.target ≡ some tn)
            × (tn.mapping ≡ on_unprefixed cur.mapping)))
        × (r.world.server.outbounds
            ≡ drop_tag cur.mapping.outbound_tag_current w.server.outbounds ++ h ∷ [])
  unfolding repair has_inbound list repair_calls remove_tunnel add remove repair_done noted_xray
  repaired-view id noted ended t w cur h v j i e =
      let same = view-id id t cur v in
      let t' : Target F = update_tunnel cur.mapping.base_tunnel_id begun t in
      let src = cur.mapping.source_id in
      let f : Tunnel → Tunnel =
        repaired_tunnel (source_waiting t' src) (reset_of (lookup src t'.waits)) ended in
      rw (v, j, i, e)
        (
          (
            f (begun cur),
            (
              view-update id cur.mapping.base_tunnel_id f (noted_xray answered noted t').0
                  (begun cur) same (λ u. refl)
                  (view-update id cur.mapping.base_tunnel_id begun t cur same (λ u. refl) v),
              refl,
            ),
          ),
          refl,
        )

  -- A rejoin that nothing refuses.
  pub rejoined-view :
      (id : String) (d : Option ℕ) (now : ℕ) (t : Target F) (w : World Lists) (cur : Tunnel)
      (g h : Handler)
      → view_tunnel id t ≡ some cur
      → should_rejoin cur.mapping ≡ true
      → b.to_proto cur.mapping.outbound_initial.json ≡ ok g
      → b.to_proto cur.mapping.outbound_without_prefix.json ≡ ok h
      → let p = rejoin (three accepts) res b id none d now t w in
        (p.0 ≡ none)
        × (((tn : Tunnel) × ((view_tunnel id p.1.target ≡ some tn)
                × ((tn.mapping ≡ on_initial cur.mapping) × (tn.monitor.state ≡ cur.monitor.state))))
            × (p.1.world.server.outbounds
                ≡ drop_tag cur.mapping.outbound_tag_current w.server.outbounds ++ g ∷ []))
  unfolding rejoin rejoin_calls remove_tunnel add remove rejoin_done noted_xray
  rejoined-view id d now t w cur g h v j e f =
      let same = view-id id t cur v in
      rw (v, j, e, f)
        (
          refl,
          (
            (
              rejoined_tunnel cur,
              (
                view-update id cur.mapping.base_tunnel_id rejoined_tunnel
                    (noted_xray answered now t).0 cur same (λ u. refl) v,
                (refl, refl),
              ),
            ),
            refl,
          ),
        )
