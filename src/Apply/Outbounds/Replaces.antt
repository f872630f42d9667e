-- ===== src/Apply/Outbounds/Replaces.antt =====
-- internal/scd/apply/outbounds.go on the plain model of Xray, when nothing is refused.
use scd.Prelude.{
  ℕ, ◌≡◌, refl, ap, ◌∙◌, sym, subst, String, Bool, true, false, not, Option, none, some, List, [],
  ◌∷◌, ◌++◌, contains, string_eq, select, find_first, All, arith, map,
}
use scd.Xray.{World, Error, Result, ok, Handler, outbound, list, add, remove}
use scd.Apply.{Owner, Meta, Report, new_report, note_added, note_removed}
use scd.Apply.Steps.{and_then-none, Keeps, guarded-Keeps}
use scd.Outbound.{Spec}
use scd.Apply.Outbounds.{
  Progress, start, removed_one, remove_one, remove_owned, added_one, send_one, add_one, add_all,
  change, rollback, replace_listed, checked, outbounds, conflicting, finish, removable,
}
use scd.Apply.Outbounds.Counts.{append_nil, append_assoc}
use scd.Apply.Outbounds.Plain.{plain, plain_add, ours, remove_owned-left}

pub find_first_all :
    {A : Type 0} (p : A → Bool) (xs : List A) → All (λ x. p x ≡ false) xs → find_first p xs ≡ none
unfolding find_first
find_first_all p [] h = refl
find_first_all p (x ∷ xs) h = ground (arith, find_first_all p xs h.1)

failed-note_added : (r : Report) (tag : String) (b : Bool) → (note_added r tag b).failed ≡ r.failed
unfolding note_added
failed-note_added r tag true = refl
failed-note_added r tag false = refl

module _ (bad : Handler → Bool) (to_proto : Spec → Result Handler) (made : Spec → Handler) where
  -- An entry that builds, into an outbound that is not refused.
  abbrev pub Good : Spec → Type 0
  Good e = (to_proto e ≡ ok (made e)) × (bad (made e) ≡ false)

  abbrev P : Type 0
  P = Progress (List Handler)

  -- What an action that succeeds does: it appends outbounds, and their tags to `added`.
  abbrev pub Appends : P → Option Error × P → List Handler → List String → Type 0
  Appends p r hs tags =
      (r.0 ≡ none)
      × (r.1.world.server ≡ p.world.server ++ hs)
      × (r.1.added ≡ p.added ++ tags)
      × (r.1.backups ≡ p.backups)
      × (r.1.report.failed ≡ p.report.failed)

  added_one-Appends :
      (tag : String) (h : Handler) (p : P) (r : Option Error × World (List Handler))
      → r.0 ≡ none
      → r.1.server ≡ p.world.server ++ h ∷ []
      → Appends p (added_one tag p r) (h ∷ []) (tag ∷ [])
  unfolding added_one
  added_one-Appends tag h p (some e, w) n s = cc
  added_one-Appends tag h p (none, w) n s =
      (refl, s, refl, refl, failed-note_added p.report tag (contains p.removed tag))

  plain_add_good :
      (h : Handler) (hs : List Handler) (b : Bool)
      → b ≡ false
      → plain_add b h hs ≡ (none, hs ++ h ∷ [])
  plain_add_good h hs true g = cc
  plain_add_good h hs false g = refl

  add_one-Appends :
      (e : Spec) (p : P)
      → Good e
      → Appends p (add_one (plain bad) to_proto e p) (made e ∷ []) (e.tag ∷ [])
  unfolding add_one send_one add
  add_one-Appends e p g = rw (g.0) (
      added_one-Appends e.tag (made e) (record p { current_id = e.tag })
        (add (plain bad) outbound (made e) p.world)
        (ap (λ x. x.0) (plain_add_good (made e) p.world.server (bad (made e)) g.1))
        (ap (λ x. x.1) (plain_add_good (made e) p.world.server (bad (made e)) g.1)))

  pub add_all-Appends :
      (es : List Spec) (p : P)
      → All Good es
      → Appends p (add_all (plain bad) to_proto es p) (map made es) (map (λ e. e.tag) es)
  unfolding add_all
  add_all-Appends [] p g =
      (refl, sym (append_nil p.world.server), sym (append_nil p.added), refl, refl)
  add_all-Appends (e ∷ es) p g =
      let first = add_one (plain bad) to_proto e p in
      let (n, s, a, b, f) = add_one-Appends e p g.0 in
      let (n', s', a', b', f') = add_all-Appends es first.1 g.1 in
      subst (λ r. Appends p r (map made (e ∷ es)) (map (λ e. e.tag) (e ∷ es)))
        (sym (and_then-none first (add_all (plain bad) to_proto es) n))
        (
          n',
          s'
              ∙ (ap (λ l. l ++ map made es) s
                  ∙ append_assoc p.world.server (made e ∷ []) (map made es)),
          a'
              ∙ (ap (λ l. l ++ map (λ e. e.tag) es) a
                  ∙ append_assoc p.added (e.tag ∷ []) (map (λ e. e.tag) es)),
          b' ∙ b,
          f' ∙ f,
        )

  removed_one-failed :
      (h : Handler) (p : P) (r : Option Error × World (List Handler))
      → (removed_one h p r).1.report.failed ≡ p.report.failed
  unfolding removed_one note_removed
  removed_one-failed h p (none, w) = refl
  removed_one-failed h p (some e, w) = refl

  remove_owned-failed :
      (fixed : List String) (owner : Owner) (n : ℕ) (hs : List Handler)
      → Keeps (λ p. p.report.failed ≡ n) (remove_owned (plain bad) fixed owner hs)
  unfolding remove_owned remove_one
  remove_owned-failed fixed owner n [] p f = f
  remove_owned-failed fixed owner n (h ∷ hs) p f =
      guarded-Keeps (λ p. p.report.failed ≡ n) (removable fixed owner h p)
        (remove_one (plain bad) h) (remove_owned (plain bad) fixed owner hs)
        (λ g q k. removed_one-failed h q (remove (plain bad) outbound h.tag q.world) ∙ k)
        (remove_owned-failed fixed owner n hs) p f

  -- The report and the world of a change without an error.
  reported :
      (fixed : List String) (owner : Owner) (entries : List Spec) (m : Meta) (hs : List Handler)
      (r : Option Error × P)
      → r.0 ≡ none
      → r.1.report.failed ≡ 0
      → r.1.world.server ≡ hs
      → let done = rollback (plain bad) fixed owner m.max_outbounds entries r in
        ((finish m done.report).failed ≡ 0) × (done.world.server ≡ hs)
  unfolding rollback finish
  reported fixed owner entries m hs (some e, p) n f s = cc
  reported fixed owner entries m hs (none, p) n f s = (f, s)

  -- When no entry's tag is fixed, and every entry builds and is not refused, a replacement reports no
  -- failure and leaves the outbounds that were not the source's or are fixed, followed by the
  -- entries' outbounds in order.
  pub outbounds-replaces :
      (fixed : List String) (owner : Owner) (entries : List Spec) (m : Meta)
      (w : World (List Handler))
      → All (λ e. contains fixed e.tag ≡ false) entries
      → All Good entries
      → (r : Report) × (((outbounds (plain bad) to_proto fixed owner entries m w).0 ≡ ok r)
          × (r.failed ≡ 0)
          × ((outbounds (plain bad) to_proto fixed owner entries m w).1.server
              ≡ select (λ h. not (ours fixed owner h)) w.server ++ map made entries))
  unfolding outbounds conflicting checked list replace_listed change new_report
  outbounds-replaces fixed owner entries m w free good =
      let begun =
        start (new_report outbound m m.times.started []) (list (plain bad) outbound w).1 in
      let removed = remove_owned (plain bad) fixed owner w.server begun in
      let (n, s, a) = remove_owned-left bad fixed owner w.server begun refl refl refl in
      let (n', s', a', b', f') = add_all-Appends entries removed.1 good in
      let c : change (plain bad) to_proto fixed owner w.server entries begun
          ≡ add_all (plain bad) to_proto entries removed.1 =
        and_then-none removed (add_all (plain bad) to_proto entries) n in
      let none_failed = remove_owned-failed fixed owner 0 w.server begun refl in
      let final =
        reported fixed owner entries m
          (select (λ h. not (ours fixed owner h)) w.server ++ map made entries)
          (change (plain bad) to_proto fixed owner w.server entries begun) (ap (λ r. r.0) c ∙ n')
          (ap (λ r. r.1.report.failed) c ∙ (f' ∙ none_failed))
          (ap (λ r. r.1.world.server) c ∙ (s' ∙ ap (λ l. l ++ map made entries) s)) in
      rw (find_first_all (λ e. contains fixed e.tag) entries free) (_, (refl, final.0, final.1))
