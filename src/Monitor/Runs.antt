-- ===== src/Monitor/Runs.antt =====
-- internal/scd/monitor/repair.go: Repair and Rejoin of a tunnel, in any order and with any failures.
use scd.Prelude.{
  ℕ, ◌≡◌, ◌≢◌, refl, String, Bool, true, false, Option, none, some, List, [], ◌∷◌, inl, inr,
  string_eq, Bool-cases, Option-cases,
}
use scd.Xray.{Server, World, Error, Result, ok, err, Handler, inbound, list}
use scd.Outbound.{Builder}
use scd.Apply.Slots.{Resources}
use scd.State.{answered}
use scd.Memory.{Tunnel, Target, source_waiting}
use scd.Monitor.{Line, should_rejoin, view_tunnel, update_tunnel}
use scd.Monitor.Calls.{has_inbound, present, repair_calls, rejoin_calls}
use scd.Monitor.Repair.{
  repair, after_calls, repair_dialled, repair_present, begun, noted_xray, on_unprefixed, on_initial,
}
use scd.Monitor.Rejoin.{rejoin, rejoin_called, rejoin_dialled}
use scd.Monitor.Single.{
  Documented, Tagged, both, Shrinks-both, repair_calls-both, rejoin_calls-both,
}
use scd.Monitor.Tags.{OnOne, Tags, view-OnOne, stays-initial, rejoins-unprefixed}
use scd.Monitor.Kept.{
  failed-Tags, done-Tags, lost-Tags, rejoin_failed-Tags, rejoin_done-Tags, update-Tags,
}

-- An operation on the tunnel: the error of connecting, if any, and the times.
pub data Op : Type 0 where
  repairs : Option Error → ℕ → ℕ → Op
  rejoins : Option Error → Option ℕ → ℕ → Op

module _ {F S : Type 0} (srv : Server S) (res : Resources) (b : Builder) (id : String) where
  abbrev pub step : Op → Target F × World S → Target F × World S
  step (repairs dial noted ended) (t, w) =
      let r = (repair srv res b id dial noted ended t w).1 in (r.target, r.world)
  step (rejoins dial failed_for now) (t, w) =
      let r = (rejoin srv res b id dial failed_for now t w).1 in (r.target, r.world)

  abbrev pub steps : List Op → Target F × World S → Target F × World S
  steps [] s = s
  steps (op ∷ ops) s = steps ops (step op s)

module _ {S : Type 0} (srv : Server S) (has : String → S → Bool) (d : Documented srv has)
    (x y : String) where
  has_inbound-both :
      (tag : String) (w : World S)
      → both has x y w.server ≡ false
      → both has x y (has_inbound srv tag w).1.server ≡ false
  unfolding has_inbound list
  has_inbound-both tag w f =
      listed (list srv inbound w)
        (Shrinks-both has w.server _ x y (d.lists_shrink inbound w.server) f)
    where
      listed :
          (r : Result (List Handler) × World S)
          → both has x y r.1.server ≡ false
          → both has x y (present srv tag r).1.server ≡ false
      listed (ok hs, v) g = g
      listed (err e, v) g = g

module _ {F S : Type 0} (srv : Server S) (has : String → S → Bool) (d : Documented srv has)
    (res : Resources) (b : Builder) (tagged : Tagged b) (id x y : String) (distinct : x ≢ y) where
  abbrev Single : Target F → World S → Type 0
  Single t w = Tags id x y t × (both has x y w.server ≡ false)

  after_calls-Single :
      (cur : Tunnel) (now : ℕ) (lines : List Line) (seen t : Target F)
      (r : Bool × (Option Error × World S))
      → Tags id x y t
      → both has x y r.1.1.server ≡ false
      → let run = after_calls srv res b cur now lines seen t r in Single run.target run.world
  after_calls-Single cur now lines seen t (added, (some e, w)) a f =
      (failed-Tags id x y cur (source_waiting seen cur.mapping.source_id) added e now t a, f)
  after_calls-Single cur now lines seen t (added, (none, w)) a f =
      (done-Tags id x y cur _ (source_waiting seen cur.mapping.source_id) _ now t a, f)

  repair_present-Single :
      (cur : Tunnel) (noted ended : ℕ) (t : Target F) (r : Result Bool × World S)
      → cur.mapping.outbound_tag_current ≡ x
      → OnOne x y cur.mapping
      → Tags id x y t
      → both has x y r.1.server ≡ false
      → let run = repair_present srv res b cur noted ended t r in Single run.target run.world
  unfolding noted_xray
  repair_present-Single cur noted ended t (err e, w) c o a f =
      after_calls-Single cur ended [] t t (false, (some e, w)) a f
  repair_present-Single cur noted ended t (ok false, w) c o a f =
      (lost-Tags id x y cur.mapping ended (noted_xray answered noted t).0 a, f)
  repair_present-Single cur noted ended t (ok true, w) c o a f =
      after_calls-Single cur ended _ t (noted_xray answered noted t).0
        (repair_calls srv res b cur.mapping (on_unprefixed cur.mapping) w) a
        (repair_calls-both srv has d res b x y cur.mapping (on_unprefixed cur.mapping) w tagged c
          o.unprefixed_json distinct f)

  repair_dialled-Single :
      (cur : Tunnel) (dial : Option Error) (noted ended : ℕ) (t : Target F) (w : World S)
      → cur.mapping.outbound_tag_current ≡ x
      → OnOne x y cur.mapping
      → Single t w
      → let run = (repair_dialled srv res b cur dial noted ended t w).1 in
        Single run.target run.world
  repair_dialled-Single cur (some e) noted ended t w c o h = h
  repair_dialled-Single cur none noted ended t w c o h =
      repair_present-Single cur noted ended t (has_inbound srv cur.mapping.inbound_tag w) c o h.0
        (has_inbound-both srv has d x y cur.mapping.inbound_tag w h.1)

  repair-Single :
      (dial : Option Error) (noted ended : ℕ) (t : Target F) (w : World S)
      → Single t w
      → let run = (repair srv res b id dial noted ended t w).1 in Single run.target run.world
  unfolding repair
  repair-Single dial noted ended t w h = elim (Option-cases (view_tunnel id t)) [
    | inl n ↦ rw n h
    | inr (cur, e) ↦
        let o = view-OnOne id x y t cur e h.0 in
        elim (Bool-cases (should_rejoin cur.mapping)) [
          | inl j ↦ rw (e, j) h
          | inr j ↦
              rw (e, j)
                (repair_dialled-Single cur dial noted ended
                  (update_tunnel cur.mapping.base_tunnel_id begun t) w
                  (stays-initial x y cur.mapping o distinct j) o
                  (
                    update-Tags id x y cur.mapping.base_tunnel_id begun t (λ tn. (λ k. k, refl))
                        h.0,
                    h.1,
                  ))
        ]
  ]

  rejoin_called-Single :
      (cur : Tunnel) (failed_for : Option ℕ) (now : ℕ) (t : Target F)
      (r : Option (Error × Bool) × World S)
      → Tags id x y t
      → both has x y r.1.server ≡ false
      → let run = rejoin_called srv res b cur failed_for now t r in Single run.target run.world
  rejoin_called-Single cur failed_for now t (some (e, stuck), w) a f =
      (rejoin_failed-Tags id x y cur e stuck now t a, f)
  rejoin_called-Single cur failed_for now t (none, w) a f =
      (rejoin_done-Tags id x y cur failed_for now t a, f)

  rejoin_dialled-Single :
      (cur : Tunnel) (dial : Option Error) (failed_for : Option ℕ) (now : ℕ) (t : Target F)
      (w : World S)
      → cur.mapping.outbound_tag_current ≡ y
      → OnOne x y cur.mapping
      → Single t w
      → let run = (rejoin_dialled srv res b cur dial failed_for now t w).1 in
        Single run.target run.world
  rejoin_dialled-Single cur (some e) failed_for now t w c o h = h
  rejoin_dialled-Single cur none failed_for now t w c o h =
      rejoin_called-Single cur failed_for now t
        (rejoin_calls srv res b cur.mapping (on_initial cur.mapping) w) h.0
        (rejoin_calls-both srv has d res b x y cur.mapping (on_initial cur.mapping) w tagged c
          o.initial o.initial_json o.unprefixed_json distinct h.1)

  rejoin-Single :
      (dial : Option Error) (failed_for : Option ℕ) (now : ℕ) (t : Target F) (w : World S)
      → Single t w
      → let run = (rejoin srv res b id dial failed_for now t w).1 in Single run.target run.world
  unfolding rejoin
  rejoin-Single dial failed_for now t w h = elim (Option-cases (view_tunnel id t)) [
    | inl n ↦ rw n h
    | inr (cur, e) ↦
        let o = view-OnOne id x y t cur e h.0 in
        elim (Bool-cases (should_rejoin cur.mapping)) [
          | inl j ↦
              rw (e, j)
                (rejoin_dialled-Single cur dial failed_for now t w
                  (rejoins-unprefixed x y cur.mapping o j) o h)
          | inr j ↦ rw (e, j) h
        ]
  ]

  run_from-Single :
      (ops : List Op) (t : Target F) (w : World S)
      → Single t w
      → let s = steps srv res b id ops (t, w) in Single s.0 s.1
  run_from-Single [] t w h = h
  run_from-Single (repairs dial noted ended ∷ ops) t w h =
      run_from-Single ops _ _ (repair-Single dial noted ended t w h)
  run_from-Single (rejoins dial failed_for now ∷ ops) t w h =
      run_from-Single ops _ _ (rejoin-Single dial failed_for now t w h)

  -- In any sequence of repairs and rejoins of a tunnel whose prefixed and unprefixed tags differ,
  -- whatever calls to Xray fail: if Xray does not run both of its outbounds at the start it never runs
  -- both after an operation, and the tunnel stays recorded on one of the two. Only an addition of an
  -- outbound makes one, even if it fails, a removal without an error leaves none, and ToProto keeps the
  -- tag.
  pub steps-Single :
      (ops : List Op) (t : Target F) (w : World S)
      → Tags id x y t
      → both has x y w.server ≡ false
      → let s = steps srv res b id ops (t, w) in Tags id x y s.0 × (both has x y s.1.server ≡ false)
  steps-Single ops t w a f = run_from-Single ops t w (a, f)
