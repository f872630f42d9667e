-- ===== src/Apply/Tunnels/Counts.antt =====
-- internal/scd/apply/inbounds.go and routing.go: what the report of a replacement says.
use scd.Prelude.{
  ◌≡◌, refl, ap, ◌∙◌, sym, subst, String, Bool, not, ◌||◌, Option, none, some, List, [], ◌∷◌, ◌++◌,
  contains, string_eq, find_first, arith, map,
}
use scd.Xray.{Server, World, Error, Result, ok, err, Handler, list, add, remove}
use scd.Topology.{Tunnel}
use scd.Apply.{Owner, Meta, Report, new_report, note_removed, fail}
use scd.Apply.Steps.{and_then, Keeps, guarded-Keeps}
use scd.Apply.Outbounds.{finish}
use scd.Apply.Outbounds.Counts.{
  Counted, note_removed-Counted, note_added-Counted, note_added-applied_ids, append_nil,
  append_assoc, ok_injective,
}
use scd.Apply.Tunnels.{
  Resource, Progress, removed_one, remove_one, remove_owned, added_one, send_one, add_all,
  concluded, conflict_report, replace_listed, checked, replace_all, inbounds_of, rules_of, inbounds,
  rules,
}

module _ {S : Type 0} (srv : Server S) (k : Resource) (fixed : List String) (owner : Owner) where
  -- During the removals no id has been applied.
  abbrev Removing : Progress S → Type 0
  Removing p = Counted p.report × (p.report.applied_ids ≡ [])

  removed_one-Removing :
      (tag : String) (p : Progress S) (r : Option Error × World S)
      → Removing p
      → Removing (removed_one tag p r).1
  unfolding removed_one note_removed
  removed_one-Removing tag p (none, w) i = (note_removed-Counted p.report tag i.0, i.1)
  removed_one-Removing tag p (some e, w) i = i

  remove_one-Removing : (tag : String) → Keeps Removing (remove_one srv k tag)
  unfolding remove_one
  remove_one-Removing tag p i = removed_one-Removing tag p (remove srv k.kind tag p.world) i

  remove_owned-Removing : (hs : List Handler) → Keeps Removing (remove_owned srv k fixed owner hs)
  unfolding remove_owned
  remove_owned-Removing [] p i = i
  remove_owned-Removing (h ∷ hs) p i =
      guarded-Keeps Removing (not (contains fixed h.tag || not (owner k.kind h.tag)))
        (remove_one srv k h.tag) (remove_owned srv k fixed owner hs)
        (λ g. remove_one-Removing h.tag) (remove_owned-Removing hs) p i

  abbrev Well : Progress S → Type 0
  Well p = Counted p.report

  -- An addition keeps the counts, and adds its tag unless it fails.
  abbrev Adds : List String → Progress S → Option Error × Progress S → Type 0
  Adds tags p r = Well r.1 × (r.0 ≡ none → r.1.report.applied_ids ≡ p.report.applied_ids ++ tags)

  added_one-Adds :
      (tag : String) (b : Bool) (p : Progress S) (r : Option Error × World S)
      → Well p
      → Adds (tag ∷ []) p (added_one tag b p r)
  unfolding added_one
  added_one-Adds tag b p (none, w) c =
      (note_added-Counted p.report tag b c, λ n. note_added-applied_ids p.report tag b)
  added_one-Adds tag b p (some e, w) c = (c, λ n. cc)

  send_one-Adds :
      (existing : List String) (tag : String) (r : Result Handler) (p : Progress S)
      → Well p
      → Adds (tag ∷ []) p (send_one srv k existing tag r p)
  unfolding send_one
  send_one-Adds existing tag (err e) p c = (c, λ n. cc)
  send_one-Adds existing tag (ok h) p c =
      added_one-Adds tag (contains existing tag) p (add srv k.kind h p.world) c

  and_then-Adds :
      (tags more : List String) (p : Progress S) (r : Option Error × Progress S)
      (next : Progress S → Option Error × Progress S)
      → Adds tags p r
      → ((q : Progress S) → Well q → Adds more q (next q))
      → Adds (tags ++ more) p (and_then r next)
  unfolding and_then
  and_then-Adds tags more p (some e, q) next a f = (a.0, λ n. cc)
  and_then-Adds tags more p (none, q) next a f =
      let (c, applied) = f q a.0 in
      (
        c,
        λ n.
            applied n
            ∙ (ap (λ l. l ++ more) (a.1 refl) ∙ append_assoc p.report.applied_ids tags more),
      )

  add_all-Adds :
      (existing : List String) (tunnels : List Tunnel) (p : Progress S)
      → Well p
      → Adds (map k.tag tunnels) p (add_all srv k existing tunnels p)
  unfolding add_all
  add_all-Adds existing [] p c = (c, λ n. sym (append_nil p.report.applied_ids))
  add_all-Adds existing (tn ∷ tunnels) p c =
      and_then-Adds (k.tag tn ∷ []) (map k.tag tunnels) p
        (send_one srv k existing (k.tag tn) (k.make tn) p) (add_all srv k existing tunnels)
        (send_one-Adds existing (k.tag tn) (k.make tn) p c) (add_all-Adds existing tunnels)

  abbrev Told : List Tunnel → Report → Type 0
  Told tunnels r = Counted r × (r.failed ≡ 0 → r.applied_ids ≡ map k.tag tunnels)

  -- The removals, which may fail, and then the additions.
  change-Adds :
      (tags : List String) (r : Option Error × Progress S)
      (next : Progress S → Option Error × Progress S)
      → Removing r.1
      → ((q : Progress S) → Well q → Adds tags q (next q))
      → Well (and_then r next).1
        × ((and_then r next).0 ≡ none → (and_then r next).1.report.applied_ids ≡ tags)
  unfolding and_then
  change-Adds tags (some e, q) next i f = (i.0, λ n. cc)
  change-Adds tags (none, q) next i f =
      let (c, applied) = f q i.0 in (c, λ n. applied n ∙ ap (λ l. l ++ tags) i.1)

  concluded-Told :
      (tunnels : List Tunnel) (r : Option Error × Progress S)
      → Well r.1
      → (r.0 ≡ none → r.1.report.applied_ids ≡ map k.tag tunnels)
      → Told tunnels (concluded k tunnels r).report
  unfolding concluded fail
  concluded-Told tunnels (none, p) c a = (c, λ f. a refl)
  concluded-Told tunnels (some e, p) c a = (c, λ f. absurd (omega (arith, f)))

  replace_listed-Told :
      (tunnels : List Tunnel) (m : Meta) (l : Result (List Handler) × World S) (r : Report)
      → (replace_listed srv k fixed owner tunnels m l).0 ≡ ok r
      → Told tunnels r
  unfolding replace_listed finish new_report
  replace_listed-Told tunnels m (err e, w) r h = cc
  replace_listed-Told tunnels m (ok existing, w) r h =
      let begun : Progress S = record {
        report = new_report k.kind m m.times.started [];
        world = w;
      } in
      let tags = map (λ h. h.tag) existing in
      let removed = remove_owned srv k fixed owner existing begun in
      let (c, a) =
        change-Adds (map k.tag tunnels) removed (add_all srv k tags tunnels)
          (remove_owned-Removing existing begun ((refl, refl), refl)) (add_all-Adds tags tunnels) in
      subst (Told tunnels) (ok_injective h)
        (concluded-Told tunnels (and_then removed (add_all srv k tags tunnels)) c a)

  pub replace_all-Told :
      (tunnels : List Tunnel) (conflict : Option Tunnel) (m : Meta) (w : World S) (r : Report)
      → (checked srv k conflict fixed owner tunnels m w).0 ≡ ok r
      → Told tunnels r
  unfolding checked conflict_report fail new_report
  replace_all-Told tunnels (some tn) m w r h =
      subst (Told tunnels) (ok_injective h) ((refl, refl), λ f. absurd (omega (arith, f)))
  replace_all-Told tunnels none m w r h = replace_listed-Told tunnels m (list srv k.kind w) r h

module _ {S : Type 0} (srv : Server S) (fixed : List String) (owner : Owner) (tunnels : List Tunnel)
    (m : Meta) (w : World S) where
  -- Whatever the server answers, the counts in the report of an apply of the inbounds are those of its
  -- lists, and a report without a failure lists the inbound tags of all tunnels as applied, in order.
  pub inbounds-Counted :
      (inbound_of : Tunnel → Result Handler) (r : Report)
      → (inbounds srv inbound_of fixed owner tunnels m w).0 ≡ ok r
      → Counted r × (r.failed ≡ 0 → r.applied_ids ≡ map (λ tn. tn.inbound_tag) tunnels)
  unfolding inbounds replace_all
  inbounds-Counted inbound_of r h =
      replace_all-Told srv (inbounds_of inbound_of) fixed owner tunnels
        (find_first (λ tn. contains fixed tn.inbound_tag) tunnels) m w r h

  -- Whatever the server answers, the counts in the report of an apply of the routing rules are those
  -- of its lists, and a report without a failure lists the route tags of all tunnels as applied, in
  -- order.
  pub rules-Counted :
      (rule_of : Tunnel → String → Handler) (r : Report)
      → (rules srv rule_of fixed owner tunnels m w).0 ≡ ok r
      → Counted r × (r.failed ≡ 0 → r.applied_ids ≡ map (λ tn. tn.route_tag) tunnels)
  unfolding rules replace_all
  rules-Counted rule_of r h =
      replace_all-Told srv (rules_of rule_of) fixed owner tunnels
        (find_first (λ tn. contains fixed tn.route_tag) tunnels) m w r h
