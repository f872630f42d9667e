-- ===== src/Apply/Slots.antt =====
-- internal/scd/apply/tunnel.go: the tunnel of one slot: removed, replaced, added, reported.
pub mod Three
pub mod Added
pub mod Bounded
use scd.Prelude.{
  ℕ, String, Bool, true, false, not, ◌&&◌, Option, none, some, List, [], ◌∷◌, ◌++◌, contains,
  string_eq, ◌==◌, append, map, if◌then◌else◌,
}
use scd.Xray.{
  Server, World, Error, Result, ok, err, Handler, Kind, outbound, inbound, routing, add, remove,
}
use scd.Topology.{Tunnel}
use scd.Outbound.{Builder}
use scd.Apply.Steps.{and_then}
use scd.Apply.{Report, Meta, Item, new_report, fail, note_removed, note_added}

-- fmt.Errorf("%w: %w", ErrReplaceFailed, err)
abbrev pub wrapped : Error → Error
wrapped e = record {
  message = append "candidate replace failed: " e.message;
  unavailable = e.unavailable;
  is_cap_reached = e.is_cap_reached;
}

-- A tag that is neither empty nor among those before it.
unfoldable pub add_tag : List String → String → List String
add_tag tags tag = if not (tag == "") && not (contains tags tag) then tags ++ tag ∷ [] else tags

unfoldable pub outbound_tags : Tunnel → List String
unfolding add_tag
outbound_tags tn =
    add_tag (add_tag (tn.outbound_tag_current ∷ []) tn.outbound_tag_initial)
      tn.outbound_without_prefix.tag

-- resources.Inbound and resources.Rule.
pub record Resources : Type 0 where
  pub inbound_of : Tunnel → Result Handler
  pub rule_of : Tunnel → String → Handler

-- The next call, unless this one failed.
unfoldable pub chain :
    {S : Type 0}
    → Option Error × World S
    → (World S → Option Error × World S)
    → Option Error × World S
chain (some e, w) next = (some (wrapped e), w)
chain (none, w) next = next w

-- The same, with an undo of what was done before.
unfoldable pub or_undo :
    {S : Type 0}
    → Option Error × World S
    → (World S → World S)
    → (World S → Option Error × World S)
    → Option Error × World S
or_undo (some e, w) undo next = (some (wrapped e), undo w)
or_undo (none, w) undo next = next w

module _ {S : Type 0} (srv : Server S) (res : Resources) where
  unfoldable pub remove_outbounds :
      Tunnel → List String → (World S → Option Error × World S) → World S → Option Error × World S
  unfolding or_undo
  remove_outbounds old [] next w = next w
  remove_outbounds old (tag ∷ tags) next w =
      or_undo (remove srv outbound tag w)
        (λ v. (add srv routing (res.rule_of old old.outbound_tag_current) v).1)
        (λ v. remove_outbounds old tags next v)

  remove_inbound : Tunnel → World S → Option Error × World S
  unfolding chain
  remove_inbound old w = chain (remove srv inbound old.inbound_tag w) (λ v. (none, v))

  -- ruleErr, and err with the world.
  unfoldable pub remove_tunnel : Tunnel → World S → Option Error × (Option Error × World S)
  unfolding remove_outbounds remove_inbound outbound_tags
  remove_tunnel old w =
      let (rule_err, w') = remove srv routing old.route_tag w in
      (rule_err, remove_outbounds old (outbound_tags old) (remove_inbound old) w')

  add_built : Tunnel → Handler → Handler → World S → Option Error × World S
  unfolding chain
  add_built next h inb w = chain (add srv outbound h w) (λ v. chain (add srv inbound inb v) (λ u.
      chain (add srv routing (res.rule_of next next.outbound_tag_initial) u) (λ x. (none, x))))

  -- The additions follow a removal without an error only.
  unfoldable pub replace_built :
      Tunnel
      → Tunnel
      → Result Handler
      → Result Handler
      → World S
      → Option Error × (Option Error × World S)
  unfolding remove_tunnel add_built and_then
  replace_built old next (err e) inb w = (none, (some (wrapped e), w))
  replace_built old next (ok h) (err e) w = (none, (some (wrapped e), w))
  replace_built old next (ok h) (ok inb) w =
      let (rule_err, r) = remove_tunnel old w in (rule_err, and_then r (add_built next h inb))

  unfoldable pub replace_tunnel :
      Builder → Tunnel → Tunnel → World S → Option Error × (Option Error × World S)
  unfolding replace_built
  replace_tunnel b old next w =
      replace_built old next (b.to_proto next.outbound_initial.json) (res.inbound_of next) w

  unfoldable pub add_new :
      Tunnel → Result Handler → Result Handler → World S → Option Error × World S
  unfolding or_undo
  add_new next (err e) inb w = (some (wrapped e), w)
  add_new next (ok h) (err e) w = (some (wrapped e), w)
  add_new next (ok h) (ok inb) w =
      let drop_outbound : World S → World S =
        λ v. (remove srv outbound next.outbound_tag_initial v).1 in
      let drop_all : World S → World S = λ v.
        drop_outbound
          (remove srv inbound next.inbound_tag (remove srv routing next.route_tag v).1).1 in
      or_undo (add srv outbound h w) drop_outbound (λ v.
        or_undo (add srv inbound inb v) drop_outbound (λ u.
          or_undo (add srv routing (res.rule_of next next.outbound_tag_initial) u) drop_all
            (λ x. (none, x))))

  unfoldable pub add_tunnel : Builder → Tunnel → World S → Option Error × World S
  unfolding add_new
  add_tunnel b next w = add_new next (b.to_proto next.outbound_initial.json) (res.inbound_of next) w

-- ids[k]
unfoldable pub slot_id : Kind → Tunnel → String
slot_id outbound tn = tn.outbound_tag_current
slot_id inbound tn = tn.inbound_tag
slot_id routing tn = tn.route_tag

unfoldable pub note_all : (Report → Tunnel → Report) → List Tunnel → Report → Report
note_all note [] r = r
note_all note (tn ∷ tns) r = note_all note tns (note r tn)

-- The failed item, of the outbound report only.
unfoldable pub note_failure : Kind → String → Option Error → Report → Report
unfolding fail
note_failure outbound id (some e) r = fail r id e.message
note_failure _ id _ r = r

unfoldable pub slot_report :
    Meta → List Tunnel → List Tunnel → String → Option Error → Kind → Report
unfolding slot_id note_all note_failure new_report note_removed note_added
slot_report m removed added id e k =
    let begun = new_report k m m.times.started [] in
    let gone = note_all (λ r tn. note_removed r (slot_id k tn)) removed begun in
    let done = note_all (λ r tn. note_added r (slot_id k tn) false) added gone in
    let final = note_failure k id e done in record final { applied_at = m.times.applied }

unfoldable pub slot_reports :
    List Kind → Meta → List Tunnel → List Tunnel → String → Option Error → List Report
unfolding slot_report
slot_reports kinds m removed added id e = map (slot_report m removed added id e) kinds
