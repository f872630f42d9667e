-- ===== src/Apply/Outbounds/Calls.antt =====
-- internal/scd/apply/outbounds.go: which calls a replacement makes.
use scd.Prelude.{
  ℕ, ◌≡◌, refl, String, Bool, true, false, not, ◌&&◌, ◌||◌, Option, none, some, List, [], ◌∷◌,
  contains, string_eq, find_first-none, All, All-append, All-map, ==_refl, arith, map, ltb,
}
use scd.Xray.{
  Server, World, Error, Result, ok, err, Handler, outbound, inbound, routing, Call, lists, adds,
  removes, list, add, remove,
}
use scd.Apply.{Owner, Meta, new_report}
use scd.Apply.Steps.{Keeps, and_then-Keeps, guarded-Keeps}
use scd.Apply.Cap.{check_cap}
use scd.Outbound.{Spec}
use scd.Apply.Outbounds.{
  Progress, start, removed_one, remove_one, remove_owned, added_one, send_one, add_one, add_all,
  change, remove_backward, restore_backups, rollback, replace_listed, checked, outbounds,
  conflicting, removable,
}

-- The calls that leave alone what is not the source's: only outbounds, and of those a removal only of
-- a tag that is not fixed and is the owner's or an entry's.
abbrev pub harmless : List String → Owner → List Spec → Call → Bool
harmless fixed owner entries (lists outbound) = true
harmless fixed owner entries (adds outbound h) = true
harmless fixed owner entries (removes outbound tag) =
    not (contains fixed tag) && (owner outbound tag || contains (map (λ e. e.tag) entries) tag)
harmless fixed owner entries (lists inbound) = false
harmless fixed owner entries (lists routing) = false
harmless fixed owner entries (adds inbound h) = false
harmless fixed owner entries (adds routing h) = false
harmless fixed owner entries (removes inbound tag) = false
harmless fixed owner entries (removes routing tag) = false

tags_contained : (es : List Spec) → All (λ e. contains (map (λ e. e.tag) es) e.tag ≡ true) es
unfolding contains
tags_contained [] = tt
tags_contained (e ∷ es) =
    (ground (arith, ==_refl e.tag), All-map (λ a h. ground (arith, h)) es (tags_contained es))

module _ {S : Type 0} (srv : Server S) (to_proto : Spec → Result Handler) (fixed : List String)
    (owner : Owner) (entries : List Spec) where
  abbrev Harmless : List Call → Type 0
  Harmless = All (λ c. harmless fixed owner entries c ≡ true)

  -- A tag that a rollback may remove.
  abbrev Ours : String → Type 0
  Ours tag = harmless fixed owner entries (removes outbound tag) ≡ true

  abbrev Safe : Progress S → Type 0
  Safe p = Harmless p.world.calls × All Ours p.added

  removed_one-Safe :
      (h : Handler) (p : Progress S) (r : Option Error × World S)
      → Harmless r.1.calls
      → All Ours p.added
      → Safe (removed_one h p r).1
  unfolding removed_one
  removed_one-Safe h p (none, w) c a = (c, a)
  removed_one-Safe h p (some e, w) c a = (c, a)

  remove_one-Safe :
      (h : Handler) (p : Progress S)
      → removable fixed owner h p ≡ true
      → Keeps Safe (remove_one srv h)
  unfolding remove_one remove
  remove_one-Safe h p g q j =
      removed_one-Safe h q (remove srv outbound h.tag q.world) (ground arith, j.0) j.1

  remove_owned-Safe : (hs : List Handler) → Keeps Safe (remove_owned srv fixed owner hs)
  unfolding remove_owned
  remove_owned-Safe [] p i = i
  remove_owned-Safe (h ∷ hs) p i =
      guarded-Keeps Safe (removable fixed owner h p) (remove_one srv h)
        (remove_owned srv fixed owner hs) (remove_one-Safe h p) (remove_owned-Safe hs) p i

  added_one-Safe :
      (tag : String) (p : Progress S) (r : Option Error × World S)
      → Ours tag
      → Harmless r.1.calls
      → All Ours p.added
      → Safe (added_one tag p r).1
  unfolding added_one
  added_one-Safe tag p (none, w) o c a = (c, All-append Ours p.added (tag ∷ []) a (o, tt))
  added_one-Safe tag p (some e, w) o c a = (c, a)

  send_one-Safe : (tag : String) (r : Result Handler) → Ours tag → Keeps Safe (send_one srv tag r)
  unfolding send_one add
  send_one-Safe tag (err e) o p i = i
  send_one-Safe tag (ok h) o p i =
      added_one-Safe tag p (add srv outbound h p.world) o (refl, i.0) i.1

  add_all-Safe : (es : List Spec) → All (λ e. Ours e.tag) es → Keeps Safe (add_all srv to_proto es)
  unfolding add_all add_one
  add_all-Safe [] o p i = i
  add_all-Safe (e ∷ es) o p i =
      and_then-Keeps Safe (add_one srv to_proto e p) (add_all srv to_proto es)
        (send_one-Safe e.tag (to_proto e) o.0 (record p { current_id = e.tag }) i)
        (add_all-Safe es o.1)

  remove_backward-Harmless :
      (tags : List String) (w : World S)
      → All Ours tags
      → Harmless w.calls
      → Harmless (remove_backward srv tags w).calls
  unfolding remove_backward remove
  remove_backward-Harmless [] w a c = c
  remove_backward-Harmless (t ∷ tags) w a c = (a.0, remove_backward-Harmless tags w a.1 c)

  abbrev Quiet : World S → Type 0
  Quiet w = Harmless w.calls

  check_cap-Quiet : (limit : ℕ) → Keeps Quiet (check_cap srv fixed owner limit)
  unfolding check_cap list
  check_cap-Quiet limit v k = (refl, k)

  restore_backups-Harmless :
      (limit : ℕ) (hs : List Handler) → Keeps Quiet (restore_backups srv fixed owner limit hs)
  unfolding restore_backups add
  restore_backups-Harmless limit [] w c = c
  restore_backups-Harmless limit (h ∷ hs) w c =
      guarded-Keeps Quiet (ltb 0 limit) (check_cap srv fixed owner limit)
        (λ v. restore_backups srv fixed owner limit hs (add srv outbound h v).1)
        (λ b. check_cap-Quiet limit)
        (λ v k. restore_backups-Harmless limit hs (add srv outbound h v).1 (refl, k)) w c

  rollback-Harmless :
      (limit : ℕ) (r : Option Error × Progress S)
      → Safe r.1
      → Harmless (rollback srv fixed owner limit entries r).world.calls
  unfolding rollback
  rollback-Harmless limit (none, p) i = i.0
  rollback-Harmless limit (some e, p) i =
      restore_backups-Harmless limit p.backups (remove_backward srv p.added p.world)
        (remove_backward-Harmless p.added p.world i.1 i.0)

  Ours-entries :
      (es : List Spec)
      → All (λ e. contains fixed e.tag ≡ false) es
      → All (λ e. contains (map (λ e. e.tag) entries) e.tag ≡ true) es
      → All (λ e. Ours e.tag) es
  Ours-entries [] f c = tt
  Ours-entries (e ∷ es) f c = (ground (arith, f.0, c.0), Ours-entries es f.1 c.1)

  replace_listed-Harmless :
      (m : Meta) (r : Result (List Handler) × World S)
      → All (λ e. Ours e.tag) entries
      → Harmless r.1.calls
      → Harmless (replace_listed srv to_proto fixed owner entries m r).1.calls
  unfolding replace_listed change
  replace_listed-Harmless m (err e, w) o c = c
  replace_listed-Harmless m (ok existing, w) o c =
      let begun = start (new_report outbound m m.times.started []) w in
      rollback-Harmless m.max_outbounds (change srv to_proto fixed owner existing entries begun) (
        and_then-Keeps Safe (remove_owned srv fixed owner existing begun)
          (add_all srv to_proto entries) (remove_owned-Safe existing begun (c, tt))
          (add_all-Safe entries o))

  checked-Harmless :
      (conflict : Option Spec) (m : Meta) (w : World S)
      → (conflict ≡ none → All (λ e. Ours e.tag) entries)
      → Harmless w.calls
      → Harmless (checked srv to_proto conflict fixed owner entries m w).1.calls
  unfolding checked list
  checked-Harmless (some e) m w o c = c
  checked-Harmless none m w o c = replace_listed-Harmless m (list srv outbound w) (o refl) (refl, c)

  -- Whatever the server answers, a replacement of a source's outbounds calls the API for outbounds
  -- only, and removes only tags that are not fixed and are the owner's or an entry's. The calls made
  -- before are of that kind.
  pub outbounds-Harmless :
      (m : Meta) (w : World S)
      → All (λ c. harmless fixed owner entries c ≡ true) w.calls
      → All
          (λ c. harmless fixed owner entries c ≡ true)
          (outbounds srv to_proto fixed owner entries m w).1.calls
  unfolding outbounds conflicting
  outbounds-Harmless m w c =
      checked-Harmless (conflicting fixed entries) m w
        (λ n.
          Ours-entries entries (find_first-none (λ e. contains fixed e.tag) entries n)
            (tags_contained entries))
        c
