-- ===== src/Monitor/Kept.antt =====
-- internal/scd/monitor/repair.go: the operations leave the tags of every tunnel, and run it on one of them.
use scd.Prelude.{
  ℕ, ◌≡◌, refl, sym, subst, ◌∙◌, String, Bool, true, false, Option, List, [], ◌∷◌, inl, inr, ◌==◌,
  string_eq, Bool-cases, All, map,
}
use scd.Xray.{Error}
use scd.Topology
use scd.State.{answered}
use scd.Memory.{Tunnel, Target}
use scd.Monitor.{update_tunnel}
use scd.Monitor.Repair.{
  repair_failed, repair_done, state_lost, noted_xray, cap_refused, call_of, on_unprefixed,
  on_initial, failed_tunnel, repaired_tunnel, lose,
}
use scd.Monitor.Rejoin.{rejoin_failed, rejoin_done, unjoined_tunnel, rejoined_tunnel}
use scd.Monitor.Tags.{OnOne, Tags, update_first-All, reset-tunnels}

-- A change of the mapping that leaves the tags as they are.
moved-OnOne :
    (x y : String) (m : Topology.Tunnel)
    → OnOne x y m
    → OnOne x y (on_unprefixed m) × OnOne x y (on_initial m)
moved-OnOne x y m o = (
  record {
    initial = o.initial;
    unprefixed = o.unprefixed;
    initial_json = o.initial_json;
    unprefixed_json = o.unprefixed_json;
    current = inr o.unprefixed;
  },
  record {
    initial = o.initial;
    unprefixed = o.unprefixed;
    initial_json = o.initial_json;
    unprefixed_json = o.unprefixed_json;
    current = inl o.initial;
  },
)

mapped-All :
    (P : Tunnel → Type 0) (f : Tunnel → Tunnel) (tns : List Tunnel)
    → ((tn : Tunnel) → P tn → P (f tn))
    → All P tns
    → All P (map f tns)
mapped-All P f [] g a = tt
mapped-All P f (tn ∷ tns) g a = (g tn a.0, mapped-All P f tns g a.1)

module _ (x y : String) where
  -- What an operation does to each tunnel.
  abbrev Keeps : (Tunnel → Tunnel) → Type 0
  Keeps f =
      (tn : Tunnel)
      → (OnOne x y tn.mapping → OnOne x y (f tn).mapping)
        × ((f tn).mapping.base_tunnel_id ≡ tn.mapping.base_tunnel_id)

  failed_tunnel-Keeps :
      (added : Bool) (msg : String) (now : ℕ) → Keeps (failed_tunnel added msg now)
  failed_tunnel-Keeps true msg now tn = (λ o. (moved-OnOne x y tn.mapping o).0, refl)
  failed_tunnel-Keeps false msg now tn = (λ o. o, refl)

  lose-Keeps : (base : String) → Keeps (lose base)
  lose-Keeps base tn = elim (Bool-cases (tn.mapping.base_tunnel_id == base)) [
    | inl y ↦ rw y (λ o. o, refl)
    | inr n ↦ rw n (λ o. o, refl)
  ]

  unjoined_tunnel-Keeps : (stuck : Bool) (msg : String) → Keeps (unjoined_tunnel stuck msg)
  unjoined_tunnel-Keeps true msg tn = (λ o. (moved-OnOne x y tn.mapping o).1, refl)
  unjoined_tunnel-Keeps false msg tn = (λ o. o, refl)

module _ {F : Type 0} (id x y : String) where
  pub cap_refused-Tags :
      (tn : Topology.Tunnel) (e : Error) (t : Target F)
      → Tags id x y t
      → Tags id x y (cap_refused tn e t)
  unfolding cap_refused
  cap_refused-Tags tn e t a = elim (Bool-cases e.is_cap_reached) [
    | inl c ↦ rw c (subst (All _) (sym (reset-tunnels tn.source_id t)) a)
    | inr c ↦ rw c a
  ]

  pub update-Tags :
      (other : String) (f : Tunnel → Tunnel) (t : Target F)
      → Keeps x y f
      → Tags id x y t
      → Tags id x y (update_tunnel other f t)
  unfolding update_tunnel
  update-Tags other f t g a =
      update_first-All _ other f t.tunnels
        (λ tn k same. let (keeps, named) = g tn in keeps (k (sym named ∙ same))) a

  pub failed-Tags :
      (cur : Tunnel) (waiting added : Bool) (e : Error) (now : ℕ) (t : Target F)
      → Tags id x y t
      → Tags id x y (repair_failed cur waiting added e now t).0
  unfolding repair_failed noted_xray
  failed-Tags cur waiting added e now t a =
      update-Tags cur.mapping.base_tunnel_id (failed_tunnel added e.message now)
        (noted_xray (call_of e) now (cap_refused cur.mapping e t)).0
        (failed_tunnel-Keeps x y added e.message now) (cap_refused-Tags cur.mapping e t a)

  pub done-Tags :
      (cur : Tunnel) (quiet waiting : Bool) (reset_at : Option ℕ) (now : ℕ) (t : Target F)
      → Tags id x y t
      → Tags id x y (repair_done cur quiet waiting reset_at now t).0
  unfolding repair_done
  done-Tags cur quiet waiting reset_at now t a =
      update-Tags cur.mapping.base_tunnel_id (repaired_tunnel waiting reset_at now) t
        (λ tn. (λ o. (moved-OnOne x y tn.mapping o).0, refl)) a

  pub lost-Tags :
      (tn : Topology.Tunnel) (now : ℕ) (t : Target F)
      → Tags id x y t
      → Tags id x y (state_lost tn now t).0
  unfolding state_lost
  lost-Tags tn now t a =
      mapped-All _ (lose tn.base_tunnel_id) _
        (λ u k same.
          let (keeps, named) = lose-Keeps x y tn.base_tunnel_id u in keeps (k (sym named ∙ same)))
        (subst (All _) (sym (reset-tunnels tn.source_id t)) a)

  pub rejoin_failed-Tags :
      (cur : Tunnel) (e : Error) (stuck : Bool) (now : ℕ) (t : Target F)
      → Tags id x y t
      → Tags id x y (rejoin_failed cur e stuck now t).0
  unfolding rejoin_failed noted_xray
  rejoin_failed-Tags cur e stuck now t a =
      update-Tags cur.mapping.base_tunnel_id (unjoined_tunnel stuck e.message)
        (noted_xray (call_of e) now (cap_refused cur.mapping e t)).0
        (unjoined_tunnel-Keeps x y stuck e.message) (cap_refused-Tags cur.mapping e t a)

  pub rejoin_done-Tags :
      (cur : Tunnel) (failed_for : Option ℕ) (now : ℕ) (t : Target F)
      → Tags id x y t
      → Tags id x y (rejoin_done cur failed_for now t).0
  unfolding rejoin_done noted_xray
  rejoin_done-Tags cur failed_for now t a =
      update-Tags cur.mapping.base_tunnel_id rejoined_tunnel (noted_xray answered now t).0
        (λ tn. (λ o. (moved-OnOne x y tn.mapping o).1, refl)) a
