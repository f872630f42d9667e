-- ===== src/Apply/Tunnels/Calls.antt =====
-- internal/scd/apply/inbounds.go and routing.go: which calls a replacement makes.
use scd.Prelude.{
  ◌≡◌, refl, sym, subst, String, Bool, true, false, not, ◌&&◌, ◌||◌, Option, none, some, List, [],
  ◌∷◌, contains, string_eq, find_first, All, arith, map,
}
use scd.Xray.{
  Server, World, Error, Result, ok, err, Handler, Kind, outbound, inbound, routing, Call, lists,
  adds, removes, list, add, remove,
}
use scd.Topology.{Tunnel}
use scd.Apply.{Owner, Meta, new_report}
use scd.Apply.Steps.{and_then, Keeps, and_then-Keeps, guarded-Keeps}
use scd.Apply.Tunnels.{
  Resource, Progress, removed_one, remove_one, remove_owned, added_one, send_one, add_all,
  concluded, replace_listed, checked, replace_all, inbounds_of, rules_of, inbounds, rules,
}

abbrev same_kind : Kind → Kind → Bool
same_kind outbound outbound = true
same_kind inbound inbound = true
same_kind routing routing = true
same_kind _ _ = false

-- The calls of one kind, and of those a removal only of a tag that is the owner's and not fixed.
abbrev pub within : Kind → List String → Owner → Call → Bool
within kind fixed owner (lists k) = same_kind kind k
within kind fixed owner (adds k h) = same_kind kind k
within kind fixed owner (removes k tag) =
    same_kind kind k && (not (contains fixed tag) && owner kind tag)

module _ {S : Type 0} (srv : Server S) (k : Resource) (fixed : List String) (owner : Owner) where
  abbrev Within : List Call → Type 0
  Within = All (λ c. within k.kind fixed owner c ≡ true)

  abbrev Safe : Progress S → Type 0
  Safe p = Within p.world.calls

  same_self : (kind : Kind) → same_kind kind kind ≡ true
  same_self outbound = refl
  same_self inbound = refl
  same_self routing = refl

  removed_one-Safe :
      (tag : String) (p : Progress S) (r : Option Error × World S)
      → Within r.1.calls
      → Safe (removed_one tag p r).1
  unfolding removed_one
  removed_one-Safe tag p (none, w) c = c
  removed_one-Safe tag p (some e, w) c = c

  remove_one-Safe :
      (tag : String)
      → not (contains fixed tag || not (owner k.kind tag)) ≡ true
      → Keeps Safe (remove_one srv k tag)
  unfolding remove_one remove
  remove_one-Safe tag g p i =
      removed_one-Safe tag p (remove srv k.kind tag p.world)
        (ground (arith, same_self k.kind, g), i)

  remove_owned-Safe : (hs : List Handler) → Keeps Safe (remove_owned srv k fixed owner hs)
  unfolding remove_owned
  remove_owned-Safe [] p i = i
  remove_owned-Safe (h ∷ hs) p i =
      guarded-Keeps Safe (not (contains fixed h.tag || not (owner k.kind h.tag)))
        (remove_one srv k h.tag) (remove_owned srv k fixed owner hs) (remove_one-Safe h.tag)
        (remove_owned-Safe hs) p i

  added_one-Safe :
      (tag : String) (b : Bool) (p : Progress S) (r : Option Error × World S)
      → Within r.1.calls
      → Safe (added_one tag b p r).1
  unfolding added_one
  added_one-Safe tag b p (none, w) c = c
  added_one-Safe tag b p (some e, w) c = c

  send_one-Safe :
      (existing : List String) (tag : String) (r : Result Handler)
      → Keeps Safe (send_one srv k existing tag r)
  unfolding send_one add
  send_one-Safe existing tag (err e) p i = i
  send_one-Safe existing tag (ok h) p i =
      added_one-Safe tag (contains existing tag) p (add srv k.kind h p.world) (same_self k.kind, i)

  add_all-Safe :
      (existing : List String) (tunnels : List Tunnel) → Keeps Safe (add_all srv k existing tunnels)
  unfolding add_all
  add_all-Safe existing [] p i = i
  add_all-Safe existing (tn ∷ tunnels) p i =
      and_then-Keeps Safe (send_one srv k existing (k.tag tn) (k.make tn) p)
        (add_all srv k existing tunnels) (send_one-Safe existing (k.tag tn) (k.make tn) p i)
        (add_all-Safe existing tunnels)

  concluded-Safe :
      (tunnels : List Tunnel) (r : Option Error × Progress S)
      → Safe r.1
      → Safe (concluded k tunnels r)
  unfolding concluded
  concluded-Safe tunnels (none, p) i = i
  concluded-Safe tunnels (some e, p) i = i

  replace_listed-Within :
      (tunnels : List Tunnel) (m : Meta) (r : Result (List Handler) × World S)
      → Within r.1.calls
      → Within (replace_listed srv k fixed owner tunnels m r).1.calls
  unfolding replace_listed
  replace_listed-Within tunnels m (err e, w) c = c
  replace_listed-Within tunnels m (ok existing, w) c =
      let begun : Progress S = record {
        report = new_report k.kind m m.times.started [];
        world = w;
      } in
      let tags = map (λ h. h.tag) existing in
      concluded-Safe tunnels
        (and_then (remove_owned srv k fixed owner existing begun) (add_all srv k tags tunnels))
        (and_then-Keeps Safe (remove_owned srv k fixed owner existing begun)
          (add_all srv k tags tunnels) (remove_owned-Safe existing begun c)
          (add_all-Safe tags tunnels))

  checked-Within :
      (conflict : Option Tunnel) (tunnels : List Tunnel) (m : Meta) (w : World S)
      → Within w.calls
      → Within (checked srv k conflict fixed owner tunnels m w).1.calls
  unfolding checked list
  checked-Within (some tn) tunnels m w c = c
  checked-Within none tunnels m w c =
      replace_listed-Within tunnels m (list srv k.kind w) (same_self k.kind, c)

  pub replace_all-Within :
      (tunnels : List Tunnel) (m : Meta) (w : World S)
      → Within w.calls
      → Within (replace_all srv k fixed owner tunnels m w).1.calls
  unfolding replace_all
  replace_all-Within tunnels m w c =
      checked-Within (find_first (λ tn. contains fixed (k.tag tn)) tunnels) tunnels m w c

module _ {S : Type 0} (srv : Server S) (fixed : List String) (owner : Owner) (tunnels : List Tunnel)
    (m : Meta) (w : World S) where
  -- The apply of the inbounds makes calls on inbounds only, and removes only inbounds that are the
  -- owner's and not fixed; the apply of the rules likewise. Whatever the server answers.
  pub tunnels-Within :
      (inbound_of : Tunnel → Result Handler) (rule_of : Tunnel → String → Handler)
      → w.calls ≡ []
      → All
          (λ c. within inbound fixed owner c ≡ true)
          (inbounds srv inbound_of fixed owner tunnels m w).1.calls
        × All
            (λ c. within routing fixed owner c ≡ true)
            (rules srv rule_of fixed owner tunnels m w).1.calls
  unfolding inbounds rules
  tunnels-Within inbound_of rule_of e = (
    replace_all-Within srv (inbounds_of inbound_of) fixed owner tunnels m w
        (subst (All (λ c. within inbound fixed owner c ≡ true)) (sym e) tt),
    replace_all-Within srv (rules_of rule_of) fixed owner tunnels m w
        (subst (All (λ c. within routing fixed owner c ≡ true)) (sym e) tt),
  )
