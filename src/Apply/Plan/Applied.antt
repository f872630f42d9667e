-- ===== src/Apply/Plan/Applied.antt =====
-- internal/scd/apply/plan.go: Apply of the plans of PlanForSource.
use scd.Prelude.{
  ◌≡◌, refl, ap, ◌∙◌, sym, subst, String, Bool, true, false, List, arith, if◌then◌else◌,
}
use scd.Vless.{Skip}
use scd.Xray.{Server, World, Error, Result, ok, err, Handler, Kind, outbound, inbound, routing}
use scd.Config.{Source, Target}
use scd.Selection.{Floats}
use scd.Outbound.{Spec, Builder}
use scd.Manifest.{Manifest}
use scd.Apply.{Report, Meta, owns, failed_report, fail, new_report}
use scd.Apply.Outbounds.Counts.{Counted, outbounds-Counted}
use scd.Apply.Tunnels.Counts.{inbounds-Counted, rules-Counted}
use scd.Apply.Slots.{Resources}
use scd.Apply.Plan.{
  Plan, Hashes, tunnels_of, fill, no_selection, unfilled, plan_for_source, report_of, run,
  apply_kind, apply,
}

-- A report that counts its lists, and without a failure lists the ids as applied.
abbrev pub Told : List String → Report → Type 0
Told ids r = Counted r × (r.failed ≡ 0 → r.applied_ids ≡ ids)

report_of-Told :
    (k : Kind) (m : Meta) (skipped : List Skip) (ids : List String) (r : Result Report)
    → ((x : Report) → r ≡ ok x → Told ids x)
    → Told ids (report_of k m skipped r)
unfolding report_of failed_report fail new_report
report_of-Told k m skipped ids (err e) h = ((refl, refl), λ f. absurd (omega (arith, f)))
report_of-Told outbound m skipped ids (ok r) h = h r refl
report_of-Told inbound m skipped ids (ok r) h = h r refl
report_of-Told routing m skipped ids (ok r) h = h r refl

plan_of : Result Plan → Plan → Plan
plan_of (ok p) d = p
plan_of (err e) d = d

plan_injective : {p q : Plan} → ◌≡◌ {A = Result Plan} (ok p) (ok q) → p ≡ q
unfolding plan_of
plan_injective {p} e = ap (λ x. plan_of x p) e

if_ok :
    (c : Bool) (e : Error) {o : Result Plan} {p : Plan} → (if c then err e else o) ≡ ok p → o ≡ ok p
if_ok true e h = cc
if_ok false e h = h

module _ {S : Type 0} (srv : Server S) (to_proto : Spec → Result Handler) (res : Resources)
    (hashes : Hashes) where
  run-Told :
      (k : Kind) (q : Plan) (t : Target) (m : Meta) (w : World S) (x : Report)
      → (run srv to_proto res k (fill hashes q k) t m w).0 ≡ ok x
      → Told (fill hashes q k).managed_ids x
  unfolding run fill
  run-Told outbound q t m w x h =
      outbounds-Counted srv to_proto t.fixed_outbounds
        (owns (record { obs_prefix = t.observatory_prefix; source_id = q.source_id })) q.outbounds m
        w x h
  run-Told inbound q t m w x h =
      inbounds-Counted srv t.fixed_inbounds
        (owns (record { obs_prefix = t.observatory_prefix; source_id = q.source_id }))
        (tunnels_of q.tunnels) m w res.inbound_of x h
  run-Told routing q t m w x h =
      rules-Counted srv t.fixed_routing
        (owns (record { obs_prefix = t.observatory_prefix; source_id = q.source_id }))
        (tunnels_of q.tunnels) m w res.rule_of x h

  kind-fill : (q : Plan) (k : Kind) → (fill hashes q k).kind ≡ q.kind
  unfolding fill
  kind-fill q outbound = refl
  kind-fill q inbound = refl
  kind-fill q routing = refl

  apply-fill :
      (k : Kind) (q : Plan) (t : Target) (m : Meta) (w : World S)
      → q.kind ≡ k
      → Told (fill hashes q k).managed_ids (apply srv to_proto res (fill hashes q k) t m w).0
  unfolding apply apply_kind
  apply-fill k q t m w e =
      let p = fill hashes q k in
      let m' = record m {
        source_id = p.source_id;
        target_address = t.address;
        max_outbounds = p.max_active;
      } in
      subst (λ x. Told p.managed_ids (apply_kind srv to_proto res x p t m w).0)
        (sym (kind-fill q k ∙ e))
        (report_of-Told k m' p.skipped p.managed_ids (run srv to_proto res k p t m' w).0
          (run-Told k q t m' w))

module _ {F : Type 0} (floats : Floats F) (b : Builder) (hashes : Hashes) where
  -- Apply of a plan that PlanForSource made, through any server: the report's counts are those of its
  -- lists, and if it reports no failure then the applied ids are the plan's managed ids, in order.
  pub apply-plan_for_source :
      {S : Type 0} (srv : Server S) (res : Resources) (kind : Kind) (m : Manifest F) (src : Source)
      (t : Target) (meta : Meta) (w : World S) (p : Plan)
      → plan_for_source floats b hashes kind m src t ≡ ok p
      → let r = (apply srv b.to_proto res p t meta w).0 in
        Counted r × (r.failed ≡ 0 → r.applied_ids ≡ p.managed_ids)
  unfolding plan_for_source unfilled
  apply-plan_for_source srv res kind m src t meta w p h =
      subst (λ q. Told q.managed_ids (apply srv b.to_proto res q t meta w).0)
        (plan_injective (if_ok _ (no_selection src) h))
        (apply-fill srv b.to_proto res hashes kind (unfilled floats b hashes kind m src t) t meta w
          refl)
