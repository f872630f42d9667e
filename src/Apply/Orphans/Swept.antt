-- ===== src/Apply/Orphans/Swept.antt =====
-- internal/scd/apply/namespace.go: what RemoveOrphans removes, and what it leaves.
use scd.Prelude.{
  ◌≡◌, sym, subst, String, Bool, true, false, not, ◌&&◌, Option, none, some, List, [], ◌∷◌, ◌++◌,
  any, contains, string_eq, ◌==◌, All, All-append, arith,
}
use scd.Xray.{
  Server, World, Error, Result, ok, err, Handler, Kind, outbound, inbound, routing, Call, lists,
  adds, removes, list, remove,
}
use scd.Config.{Target}
use scd.Apply.{Namespace, owns}
use scd.Apply.Steps.{and_then, Keeps, and_then-Keeps, guarded-Keeps, branch-Keeps}
use scd.Apply.Orphans.{
  Sweep, fixed_of, has_kind, orphan, removed_one, swept, remove_one, sweep_tags, sweep_listed,
  sweep_kind, sweep_kinds, remove_orphans,
}

module _ (t : Target) (namespaces : List Namespace) (kinds : List Kind) where
  -- A list of an enabled kind, or the removal of an orphan of one: a tag that is not empty, not fixed
  -- and in none of the namespaces.
  abbrev pub sweeping : Call → Bool
  sweeping (lists k) = has_kind kinds k
  sweeping (adds k h) = false
  sweeping (removes k tag) =
      has_kind kinds k
      && (not (tag == "")
          && (not (contains (fixed_of t k) tag) && not (any (λ n. owns n k tag) namespaces)))

  -- A tag that the removal of the outbounds leaves.
  abbrev pub Spared : String → Type 0
  Spared tag = orphan namespaces outbound t.fixed_outbounds tag ≡ false

  abbrev AllSpared : Option (List String) → Type 0
  AllSpared none = Unit
  AllSpared (some tags) = All Spared tags

module _ {S : Type 0} (srv : Server S) (t : Target) (namespaces : List Namespace)
    (kinds : List Kind) where
  abbrev Safe : Sweep S → Type 0
  Safe p =
      All (λ c. sweeping t namespaces kinds c ≡ true) p.world.calls
      × AllSpared t namespaces kinds p.outbounds

  -- While the tags of one kind are read.
  abbrev Reading : Kind → Sweep S → Type 0
  Reading kind p = Safe p × All (λ tag. orphan namespaces kind (fixed_of t kind) tag ≡ false) p.kept

  removed_one-Reading :
      (kind : Kind) (tag : String) (p : Sweep S) (r : Option Error × World S)
      → All (λ c. sweeping t namespaces kinds c ≡ true) r.1.calls
      → Reading kind p
      → Reading kind (removed_one kind tag p r).1
  unfolding removed_one
  removed_one-Reading kind tag p (none, w) c i = ((c, i.0.1), i.1)
  removed_one-Reading kind tag p (some e, w) c i = ((c, i.0.1), i.1)

  remove_one-Reading :
      (kind : Kind) (tag : String)
      → has_kind kinds kind ≡ true
      → orphan namespaces kind (fixed_of t kind) tag ≡ true
      → Keeps (Reading kind) (remove_one srv kind tag)
  unfolding remove_one remove orphan
  remove_one-Reading kind tag enabled o p i =
      removed_one-Reading kind tag p (remove srv kind tag p.world)
        (ground (arith, enabled, o), i.0.0) i

  sweep_tags-Reading :
      (kind : Kind) (hs : List Handler)
      → has_kind kinds kind ≡ true
      → Keeps (Reading kind) (sweep_tags srv t namespaces kind hs)
  unfolding sweep_tags
  sweep_tags-Reading kind [] enabled p i = i
  sweep_tags-Reading kind (h ∷ hs) enabled p i =
      branch-Keeps (Reading kind) (orphan namespaces kind (fixed_of t kind) h.tag)
        (λ q. and_then (remove_one srv kind h.tag q) (sweep_tags srv t namespaces kind hs))
        (λ q. sweep_tags srv t namespaces kind hs (record q { kept = q.kept ++ h.tag ∷ [] }))
        (λ o q j.
          and_then-Keeps (Reading kind) (remove_one srv kind h.tag q)
            (sweep_tags srv t namespaces kind hs) (remove_one-Reading kind h.tag enabled o q j)
            (sweep_tags-Reading kind hs enabled))
        (λ n q j.
          sweep_tags-Reading kind hs enabled (record q { kept = q.kept ++ h.tag ∷ [] })
            (
              j.0,
              All-append (λ tag. orphan namespaces kind (fixed_of t kind) tag ≡ false) q.kept
                  (h.tag ∷ []) j.1 (n, tt),
            ))
        p i

  swept-Safe : (kind : Kind) (p : Sweep S) → Reading kind p → Safe (swept kind p).1
  unfolding swept
  swept-Safe outbound p i = (i.0.0, i.1)
  swept-Safe inbound p i = i.0
  swept-Safe routing p i = i.0

  and_then-Safe :
      (kind : Kind) (r : Option Error × Sweep S)
      → Reading kind r.1
      → Safe (and_then r (swept kind)).1
  unfolding and_then
  and_then-Safe kind (none, p) i = swept-Safe kind p i
  and_then-Safe kind (some e, p) i = i.0

  sweep_listed-Safe :
      (kind : Kind) (r : Result (List Handler))
      → has_kind kinds kind ≡ true
      → Keeps Safe (sweep_listed srv t namespaces kind r)
  unfolding sweep_listed
  sweep_listed-Safe kind (err e) enabled p i = i
  sweep_listed-Safe kind (ok hs) enabled p i =
      and_then-Safe kind (sweep_tags srv t namespaces kind hs (record p { kept = [] }))
        (sweep_tags-Reading kind hs enabled (record p { kept = [] }) (i, tt))

  sweep_kind-Safe :
      (kind : Kind) → has_kind kinds kind ≡ true → Keeps Safe (sweep_kind srv t namespaces kind)
  unfolding sweep_kind list
  sweep_kind-Safe kind enabled p i =
      let (r, w) = list srv kind p.world in
      sweep_listed-Safe kind r enabled (record p { world = w }) ((enabled, i.0), i.1)

  sweep_kinds-Safe : (ks : List Kind) → Keeps Safe (sweep_kinds srv t namespaces kinds ks)
  unfolding sweep_kinds
  sweep_kinds-Safe [] p i = i
  sweep_kinds-Safe (k ∷ ks) p i =
      guarded-Keeps Safe (has_kind kinds k) (sweep_kind srv t namespaces k)
        (sweep_kinds srv t namespaces kinds ks) (sweep_kind-Safe k) (sweep_kinds-Safe ks) p i

  -- Whatever the server answers, RemoveOrphans only lists the enabled kinds and removes resources of
  -- them whose tag is not empty, not fixed and in none of the namespaces; and each of the outbound
  -- tags that it returns as left is empty, fixed or in one of them.
  pub remove_orphans-Safe :
      (w : World S)
      → w.calls ≡ []
      → let done = (remove_orphans srv t namespaces kinds w).1 in
        All (λ c. sweeping t namespaces kinds c ≡ true) done.world.calls
        × ((tags : List String) → done.outbounds ≡ some tags → All (Spared t namespaces kinds) tags)
  unfolding remove_orphans
  remove_orphans-Safe w e =
      let safe =
        sweep_kinds-Safe (routing ∷ inbound ∷ outbound ∷ [])
          (record { removed = []; kept = []; outbounds = none; world = w })
          (subst (All (λ c. sweeping t namespaces kinds c ≡ true)) (sym e) tt, tt) in
      (safe.0, λ tags o. subst (AllSpared t namespaces kinds) o safe.1)
