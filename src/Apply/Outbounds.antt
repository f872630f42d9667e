-- ===== src/Apply/Outbounds.antt =====
-- internal/scd/apply/outbounds.go: the replacement of the outbounds of a source, with its rollback.
pub mod Calls
pub mod Counts
pub mod Plain
pub mod Replaces
pub mod Undo
pub mod Failing
pub mod Restores
use scd.Prelude.{
  ℕ, ◌-◌, String, Bool, true, false, not, ◌&&◌, ◌||◌, Option, none, some, List, [], ◌∷◌, ◌++◌, ltb,
  contains, string_eq, ◌==◌, find_first, find_last, is_empty, if◌then◌else◌, append, map,
}
use scd.Xray.{Server, World, Error, Result, ok, err, Handler, outbound, list, add, remove}
use scd.Outbound.{Spec}
use scd.Apply.{Owner, Report, Meta, new_report, fail, note_removed, note_added}
use scd.Apply.Steps.{Step, and_then, guarded}
use scd.Apply.Cap.{check_cap}

-- The variables of Outbounds, with the world that its calls change.
pub record Progress (S : Type 0) : Type 0 where
  pub report : Report
  pub backups : List Handler
  pub removed : List String
  pub added : List String
  pub current_id : String
  pub world : World S

abbrev pub start : {S : Type 0} → Report → World S → Progress S
start r w = record {
  report = r;
  backups = [];
  removed = [];
  added = [];
  current_id = "";
  world = w;
}

unfoldable pub conflicting : List String → List Spec → Option Spec
conflicting fixed entries = find_first (λ e. contains fixed e.tag) entries

unfoldable pub conflict_text : String → String → String
conflict_text tag target =
    append "Managed outbound tag \""
      (append tag (append "\" conflicts with fixedOutbounds on target \"" (append target "\".")))

-- The last of the added tags, or the tag of the first entry.
unfoldable pub failed_id : String → List String → List Spec → String
failed_id current added entries = if not (current == "") then current else last_id added entries
  where
    first_id : List Spec → String
    first_id [] = "unknown"
    first_id (e ∷ es) = if e.tag == "" then "unknown" else e.tag

    last_id : List String → List Spec → String
    last_id added entries = elim (find_last (λ t. true) added) [
      | some t ↦ t
      | none ↦ first_id entries
    ]

-- finish and AppliedAt.
unfoldable pub finish : Meta → Report → Report
finish m r = record r {
  duration_ms = m.times.finished - m.times.started;
  applied_at = m.times.applied;
}

unfoldable pub conflict_report : Meta → Spec → Report
unfolding fail new_report conflict_text
conflict_report m e =
    let r =
      fail (new_report outbound m m.times.started []) e.tag
        (conflict_text e.tag m.target_address) in
    record r { duration_ms = m.times.finished - m.times.started }

module _ {S : Type 0} where
  unfoldable pub removed_one :
      Handler → Progress S → Option Error × World S → Option Error × Progress S
  removed_one h p (some e, w) = (some e, record p { world = w })
  removed_one h p (none, w) = (
    none,
    record p {
      world = w;
      backups = p.backups ++ h ∷ [];
      removed = h.tag ∷ p.removed;
      report = note_removed p.report h.tag;
    },
  )

  abbrev pub removable : List String → Owner → Handler → Progress S → Bool
  removable fixed owner h p =
      not (contains p.removed h.tag || (contains fixed h.tag || not (owner outbound h.tag)))

  unfoldable pub added_one :
      String → Progress S → Option Error × World S → Option Error × Progress S
  added_one tag p (some e, w) = (some e, record p { world = w })
  added_one tag p (none, w) = (
    none,
    record p {
      world = w;
      added = p.added ++ tag ∷ [];
      report = note_added p.report tag (contains p.removed tag);
    },
  )

module _ {S : Type 0} (srv : Server S) where
  unfoldable pub remove_one : Handler → Step (Progress S)
  unfolding removed_one
  remove_one h p = removed_one h p (remove srv outbound h.tag p.world)

  unfoldable pub remove_owned : List String → Owner → List Handler → Step (Progress S)
  unfolding remove_one guarded
  remove_owned fixed owner [] p = (none, p)
  remove_owned fixed owner (h ∷ hs) p =
      guarded (removable fixed owner h p) (remove_one h) (remove_owned fixed owner hs) p

  unfoldable pub send_one : String → Result Handler → Step (Progress S)
  unfolding added_one
  send_one tag (err e) p = (some e, p)
  send_one tag (ok h) p = added_one tag p (add srv outbound h p.world)

  module _ (to_proto : Spec → Result Handler) where
    unfoldable pub add_one : Spec → Step (Progress S)
    unfolding send_one
    add_one e p = send_one e.tag (to_proto e) (record p { current_id = e.tag })

    unfoldable pub add_all : List Spec → Step (Progress S)
    unfolding add_one and_then
    add_all [] p = (none, p)
    add_all (e ∷ es) p = and_then (add_one e p) (add_all es)

    unfoldable pub change : List String → Owner → List Handler → List Spec → Step (Progress S)
    unfolding remove_owned add_all
    change fixed owner existing entries p =
        and_then (remove_owned fixed owner existing p) (add_all entries)

  -- The tags in reverse order; errors are ignored.
  unfoldable pub remove_backward : List String → World S → World S
  remove_backward [] w = w
  remove_backward (tag ∷ tags) w = (remove srv outbound tag (remove_backward tags w)).1

  unfoldable pub restore_backups : List String → Owner → ℕ → List Handler → Step (World S)
  unfolding guarded
  restore_backups fixed owner limit [] w = (none, w)
  restore_backups fixed owner limit (h ∷ hs) w =
      guarded (ltb 0 limit) (check_cap srv fixed owner limit)
        (λ v. restore_backups fixed owner limit hs (add srv outbound h v).1) w

  unfoldable pub rollback :
      List String → Owner → ℕ → List Spec → Option Error × Progress S → Progress S
  unfolding remove_backward restore_backups failed_id fail
  rollback fixed owner limit entries (none, p) = p
  rollback fixed owner limit entries (some e, p) = record p {
    world = (restore_backups fixed owner limit p.backups (remove_backward p.added p.world)).1;
    report = fail p.report (failed_id p.current_id p.added entries) e.message;
  }

  module _ (to_proto : Spec → Result Handler) where
    unfoldable pub replace_listed :
        List String
        → Owner
        → List Spec
        → Meta
        → Result (List Handler) × World S
        → Result Report × World S
    unfolding change rollback finish new_report
    replace_listed fixed owner entries m (err e, w) = (err e, w)
    replace_listed fixed owner entries m (ok existing, w) =
        let begun = start (new_report outbound m m.times.started []) w in
        let done =
          rollback fixed owner m.max_outbounds entries
            (change to_proto fixed owner existing entries begun) in
        (ok (finish m done.report), done.world)

    unfoldable pub checked :
        Option Spec → List String → Owner → List Spec → Meta → World S → Result Report × World S
    unfolding conflict_report replace_listed
    checked (some e) fixed owner entries m w = (ok (conflict_report m e), w)
    checked none fixed owner entries m w =
        replace_listed fixed owner entries m (list srv outbound w)

    unfoldable pub outbounds :
        List String → Owner → List Spec → Meta → World S → Result Report × World S
    unfolding checked conflicting
    outbounds fixed owner entries m w = checked (conflicting fixed entries) fixed owner entries m w
