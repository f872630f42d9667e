-- ===== src/Apply/Orphans.antt =====
-- internal/scd/apply/namespace.go: RemoveOrphans, the removal of what no source owns.
pub mod Swept
use scd.Prelude.{
  String, Bool, true, false, not, ◌&&◌, ◌||◌, Option, none, some, List, [], ◌∷◌, ◌++◌, any,
  contains, string_eq, ◌==◌, map, if◌then◌else◌,
}
use scd.Xray.{
  Server, World, Error, Result, ok, err, Handler, Kind, outbound, inbound, routing, list, remove,
}
use scd.Config.{Target}
use scd.Apply.{Namespace, owns}
use scd.Apply.Steps.{Step, and_then, guarded, branch}

pub record Orphan : Type 0 where
  pub kind : Kind
  pub tag : String

abbrev pub fixed_of : Target → Kind → List String
fixed_of t outbound = t.fixed_outbounds
fixed_of t inbound = t.fixed_inbounds
fixed_of t routing = t.fixed_routing

abbrev pub same_kind : Kind → Kind → Bool
same_kind outbound outbound = true
same_kind inbound inbound = true
same_kind routing routing = true
same_kind _ _ = false

abbrev pub has_kind : List Kind → Kind → Bool
has_kind kinds k = any (same_kind k) kinds

unfoldable pub orphan : List Namespace → Kind → List String → String → Bool
orphan namespaces kind fixed tag =
    not (tag == "" || contains fixed tag) && not (any (λ n. owns n kind tag) namespaces)

-- The results of RemoveOrphans and the world that its calls change. `kept` is the list of the kind
-- that is being swept.
pub record Sweep (S : Type 0) : Type 0 where
  pub removed : List Orphan
  pub kept : List String
  pub outbounds : Option (List String)
  pub world : World S

module _ {S : Type 0} where
  unfoldable pub removed_one :
      Kind → String → Sweep S → Option Error × World S → Option Error × Sweep S
  removed_one kind tag p (some e, w) = (some e, record p { world = w })
  removed_one kind tag p (none, w) =
      (none, record p { world = w; removed = p.removed ++ record { kind = kind; tag = tag } ∷ [] })

  -- outbounds is set after the last kind only.
  unfoldable pub swept : Kind → Step (Sweep S)
  swept outbound p = (none, record p { outbounds = some p.kept })
  swept inbound p = (none, p)
  swept routing p = (none, p)

module _ {S : Type 0} (srv : Server S) where
  unfoldable pub remove_one : Kind → String → Step (Sweep S)
  unfolding removed_one
  remove_one kind tag p = removed_one kind tag p (remove srv kind tag p.world)

module _ {S : Type 0} (srv : Server S) (t : Target) (namespaces : List Namespace) where
  unfoldable pub sweep_tags : Kind → List Handler → Step (Sweep S)
  unfolding remove_one and_then branch
  sweep_tags kind [] p = (none, p)
  sweep_tags kind (h ∷ hs) p =
      branch (orphan namespaces kind (fixed_of t kind) h.tag)
        (λ q. and_then (remove_one srv kind h.tag q) (sweep_tags kind hs))
        (λ q. sweep_tags kind hs (record q { kept = q.kept ++ h.tag ∷ [] })) p

  unfoldable pub sweep_listed : Kind → Result (List Handler) → Step (Sweep S)
  unfolding sweep_tags and_then swept
  sweep_listed kind (err e) p = (some e, p)
  sweep_listed kind (ok hs) p = and_then (sweep_tags kind hs (record p { kept = [] })) (swept kind)

  unfoldable pub sweep_kind : Kind → Step (Sweep S)
  unfolding sweep_listed
  sweep_kind kind p =
      let (r, w) = list srv kind p.world in sweep_listed kind r (record p { world = w })

  unfoldable pub sweep_kinds : List Kind → List Kind → Step (Sweep S)
  unfolding sweep_kind guarded
  sweep_kinds kinds [] p = (none, p)
  sweep_kinds kinds (k ∷ ks) p = guarded (has_kind kinds k) (sweep_kind k) (sweep_kinds kinds ks) p

  -- removed, outbounds and err; outbounds is nil with an error.
  unfoldable pub remove_orphans : List Kind → World S → Option Error × Sweep S
  unfolding sweep_kinds
  remove_orphans kinds w =
      sweep_kinds kinds (routing ∷ inbound ∷ outbound ∷ [])
        (record { removed = []; kept = []; outbounds = none; world = w })
