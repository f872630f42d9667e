-- ===== src/Apply/Outbounds/Counts.antt =====
-- internal/scd/apply/outbounds.go: what the report of a replacement says.
use scd.Prelude.{
  ℕ, ◌+◌, ◌≡◌, refl, ap, ◌∙◌, sym, subst, inl, inr, String, Bool, true, false, Option, none, some,
  List, [], ◌∷◌, ◌++◌, contains, string_eq, length, length-append, arith, map,
}
use scd.Xray.{Server, World, Error, Result, ok, err, Handler, outbound, list, add, remove}
use scd.Apply.{Owner, Meta, Report, new_report, note_removed, note_added, fail}
use scd.Apply.Steps.{Keeps, and_then-Keeps, guarded-Keeps, and_then_lem}
use scd.Outbound.{Spec}
use scd.Apply.Outbounds.{
  Progress, start, removed_one, remove_one, remove_owned, added_one, send_one, add_one, add_all,
  change, rollback, replace_listed, checked, outbounds, conflicting, removable, finish,
  conflict_report,
}

-- The counts of a report are those of its lists.
abbrev pub Counted : Report → Type 0
Counted r = (r.removed ≡ length r.deleted_ids) × (r.added + r.replaced ≡ length r.applied_ids)

abbrev pub tags : List Spec → List String
tags = map (λ e. e.tag)

pub note_removed-Counted : (r : Report) (tag : String) → Counted r → Counted (note_removed r tag)
unfolding note_removed
note_removed-Counted r tag c = (omega (arith, length-append r.deleted_ids (tag ∷ []), c.0), c.1)

pub note_added-Counted :
    (r : Report) (tag : String) (b : Bool) → Counted r → Counted (note_added r tag b)
unfolding note_added
note_added-Counted r tag true c = (c.0, omega (arith, length-append r.applied_ids (tag ∷ []), c.1))
note_added-Counted r tag false c = (c.0, omega (arith, length-append r.applied_ids (tag ∷ []), c.1))

pub note_added-applied_ids :
    (r : Report) (tag : String) (b : Bool)
    → (note_added r tag b).applied_ids ≡ r.applied_ids ++ tag ∷ []
unfolding note_added
note_added-applied_ids r tag true = refl
note_added-applied_ids r tag false = refl

pub append_nil : {A : Type 0} (xs : List A) → xs ++ [] ≡ xs
append_nil [] = refl
append_nil (x ∷ xs) = ap (λ l. x ∷ l) (append_nil xs)

pub append_assoc : {A : Type 0} (xs ys zs : List A) → (xs ++ ys) ++ zs ≡ xs ++ (ys ++ zs)
append_assoc [] ys zs = refl
append_assoc (x ∷ xs) ys zs = ap (λ l. x ∷ l) (append_assoc xs ys zs)

ok_report : Result Report → Report → Report
ok_report (ok r) d = r
ok_report (err e) d = d

pub ok_injective : {r s : Report} → ◌≡◌ {A = Result Report} (ok r) (ok s) → r ≡ s
unfolding ok_report
ok_injective {r} p = ap (λ x. ok_report x r) p

module _ {S : Type 0} (srv : Server S) (to_proto : Spec → Result Handler) (fixed : List String)
    (owner : Owner) where
  abbrev Well : Progress S → Type 0
  Well p = Counted p.report

  removed_one-Well :
      (h : Handler) (p : Progress S) (r : Option Error × World S)
      → Well p
      → Well (removed_one h p r).1
  unfolding removed_one
  removed_one-Well h p (none, w) c = note_removed-Counted p.report h.tag c
  removed_one-Well h p (some e, w) c = c

  remove_one-Well : (h : Handler) → Keeps Well (remove_one srv h)
  unfolding remove_one
  remove_one-Well h p c = removed_one-Well h p (remove srv outbound h.tag p.world) c

  remove_owned-Well : (hs : List Handler) → Keeps Well (remove_owned srv fixed owner hs)
  unfolding remove_owned
  remove_owned-Well [] p c = c
  remove_owned-Well (h ∷ hs) p c =
      guarded-Keeps Well (removable fixed owner h p) (remove_one srv h)
        (remove_owned srv fixed owner hs) (λ g. remove_one-Well h) (remove_owned-Well hs) p c

  added_one-Well :
      (tag : String) (p : Progress S) (r : Option Error × World S)
      → Well p
      → Well (added_one tag p r).1
  unfolding added_one
  added_one-Well tag p (none, w) c = note_added-Counted p.report tag (contains p.removed tag) c
  added_one-Well tag p (some e, w) c = c

  send_one-Well : (tag : String) (r : Result Handler) → Keeps Well (send_one srv tag r)
  unfolding send_one
  send_one-Well tag (err e) p c = c
  send_one-Well tag (ok h) p c = added_one-Well tag p (add srv outbound h p.world) c

  add_all-Well : (es : List Spec) → Keeps Well (add_all srv to_proto es)
  unfolding add_all add_one
  add_all-Well [] p c = c
  add_all-Well (e ∷ es) p c =
      and_then-Keeps Well (add_one srv to_proto e p) (add_all srv to_proto es)
        (send_one-Well e.tag (to_proto e) (record p { current_id = e.tag }) c) (add_all-Well es)

  -- Without an error the removals add no applied id, and the additions add their tags, in order.
  removed_one-applied_ids :
      (h : Handler) (p : Progress S) (r : Option Error × World S)
      → (removed_one h p r).1.report.applied_ids ≡ p.report.applied_ids
  unfolding removed_one note_removed
  removed_one-applied_ids h p (none, w) = refl
  removed_one-applied_ids h p (some e, w) = refl

  remove_one-applied_ids :
      (h : Handler) (ids : List String) → Keeps (λ p. p.report.applied_ids ≡ ids) (remove_one srv h)
  unfolding remove_one
  remove_one-applied_ids h ids p c =
      removed_one-applied_ids h p (remove srv outbound h.tag p.world) ∙ c

  remove_owned-applied_ids :
      (ids : List String) (hs : List Handler)
      → Keeps (λ p. p.report.applied_ids ≡ ids) (remove_owned srv fixed owner hs)
  unfolding remove_owned
  remove_owned-applied_ids ids [] p c = c
  remove_owned-applied_ids ids (h ∷ hs) p c =
      guarded-Keeps (λ p. p.report.applied_ids ≡ ids) (removable fixed owner h p) (remove_one srv h)
        (remove_owned srv fixed owner hs) (λ g. remove_one-applied_ids h ids)
        (remove_owned-applied_ids ids hs) p c

  added_one-applied_ids :
      (tag : String) (p : Progress S) (r : Option Error × World S)
      → (added_one tag p r).0 ≡ none
      → (added_one tag p r).1.report.applied_ids ≡ p.report.applied_ids ++ tag ∷ []
  unfolding added_one
  added_one-applied_ids tag p (none, w) h =
      note_added-applied_ids p.report tag (contains p.removed tag)
  added_one-applied_ids tag p (some e, w) h = cc

  send_one-applied_ids :
      (tag : String) (r : Result Handler) (p : Progress S)
      → (send_one srv tag r p).0 ≡ none
      → (send_one srv tag r p).1.report.applied_ids ≡ p.report.applied_ids ++ tag ∷ []
  unfolding send_one
  send_one-applied_ids tag (err e) p h = cc
  send_one-applied_ids tag (ok x) p h = added_one-applied_ids tag p (add srv outbound x p.world) h

  add_all-applied_ids :
      (es : List Spec) (p : Progress S)
      → (add_all srv to_proto es p).0 ≡ none
      → (add_all srv to_proto es p).1.report.applied_ids ≡ p.report.applied_ids ++ tags es
  unfolding add_all add_one
  add_all-applied_ids [] p h = sym (append_nil p.report.applied_ids)
  add_all-applied_ids (e ∷ es) p h =
      elim (and_then_lem (add_one srv to_proto e p) (add_all srv to_proto es)) [
        | inl k ↦
            ap (λ r. r.1.report.applied_ids) k.1
            ∙ (add_all-applied_ids es (add_one srv to_proto e p).1 (sym (ap (λ r. r.0) k.1) ∙ h)
                ∙ (ap (λ l. l ++ tags es)
                      (send_one-applied_ids e.tag (to_proto e) (record p { current_id = e.tag })
                        k.0)
                    ∙ append_assoc p.report.applied_ids (e.tag ∷ []) (tags es)))
        | inr k ↦ absurd (k.0 h)
      ]

  abbrev Told : List Spec → Report → Type 0
  Told entries r = Counted r × (r.failed ≡ 0 → r.applied_ids ≡ tags entries)

  rollback-Told :
      (limit : ℕ) (entries : List Spec) (r : Option Error × Progress S)
      → Well r.1
      → (r.0 ≡ none → r.1.report.applied_ids ≡ tags entries)
      → Told entries (rollback srv fixed owner limit entries r).report
  unfolding rollback fail
  rollback-Told limit entries (none, p) c a = (c, λ f. a refl)
  rollback-Told limit entries (some e, p) c a = (c, λ f. absurd (omega (arith, f)))

  change-applied_ids :
      (existing : List Handler) (entries : List Spec) (p : Progress S)
      → p.report.applied_ids ≡ []
      → (change srv to_proto fixed owner existing entries p).0 ≡ none
      → (change srv to_proto fixed owner existing entries p).1.report.applied_ids ≡ tags entries
  unfolding change
  change-applied_ids existing entries p n h =
      let removed = remove_owned srv fixed owner existing p in
      elim (and_then_lem removed (add_all srv to_proto entries)) [
        | inl k ↦
            ap (λ r. r.1.report.applied_ids) k.1
            ∙ (add_all-applied_ids entries removed.1 (sym (ap (λ r. r.0) k.1) ∙ h)
                ∙ ap (λ l. l ++ tags entries) (remove_owned-applied_ids [] existing p n))
        | inr k ↦ absurd (k.0 h)
      ]

  replace_listed-Told :
      (entries : List Spec) (m : Meta) (l : Result (List Handler) × World S) (r : Report)
      → (replace_listed srv to_proto fixed owner entries m l).0 ≡ ok r
      → Told entries r
  unfolding replace_listed finish new_report change
  replace_listed-Told entries m (err e, w) r h = cc
  replace_listed-Told entries m (ok existing, w) r h =
      let begun = start (new_report outbound m m.times.started []) w in
      let done = change srv to_proto fixed owner existing entries begun in
      subst (Told entries) (ok_injective h) (
        rollback-Told m.max_outbounds entries done
          (and_then-Keeps Well (remove_owned srv fixed owner existing begun)
            (add_all srv to_proto entries) (remove_owned-Well existing begun (refl, refl))
            (add_all-Well entries))
          (change-applied_ids existing entries begun refl))

  checked-Told :
      (conflict : Option Spec) (entries : List Spec) (m : Meta) (w : World S) (r : Report)
      → (checked srv to_proto conflict fixed owner entries m w).0 ≡ ok r
      → Told entries r
  unfolding checked conflict_report fail new_report
  checked-Told (some e) entries m w r h =
      subst (Told entries) (ok_injective h) ((refl, refl), λ f. absurd (omega (arith, f)))
  checked-Told none entries m w r h = replace_listed-Told entries m (list srv outbound w) r h

  -- Whatever the server answers, the report's counts are those of its lists, and a report without a
  -- failure lists the tags of all entries as applied, in order.
  pub outbounds-Counted :
      (entries : List Spec) (m : Meta) (w : World S) (r : Report)
      → (outbounds srv to_proto fixed owner entries m w).0 ≡ ok r
      → Counted r × (r.failed ≡ 0 → r.applied_ids ≡ map (λ e. e.tag) entries)
  unfolding outbounds
  outbounds-Counted entries m w r h = checked-Told (conflicting fixed entries) entries m w r h
