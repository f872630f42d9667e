-- ===== src/Apply/Slots/Three.antt =====
-- A plain model of Xray with all three kinds: three lists, and additions of some resources that are
-- refused. internal/scd/apply/tunnel.go is run against it.
use scd.Prelude.{
  ◌≡◌, refl, String, Bool, true, false, Option, none, some, List, [], ◌∷◌, ◌++◌, contains,
  string_eq, select, ==_refl, arith, map,
}
use scd.Xray.{Server, Error, ok, Handler, Kind, outbound, inbound, routing}
use scd.Apply.Outbounds.Plain.{drop_tag, refused}

pub record Lists : Type 0 where
  pub outbounds : List Handler
  pub inbounds : List Handler
  pub rules : List Handler

abbrev pub list_of : Kind → Lists → List Handler
list_of outbound s = s.outbounds
list_of inbound s = s.inbounds
list_of routing s = s.rules

abbrev pub set_list : Kind → List Handler → Lists → Lists
set_list outbound hs s = record s { outbounds = hs }
set_list inbound hs s = record s { inbounds = hs }
set_list routing hs s = record s { rules = hs }

abbrev pub three_add : Bool → Kind → Handler → Lists → Option Error × Lists
three_add true kind h s = (some refused, s)
three_add false kind h s = (none, set_list kind (list_of kind s ++ h ∷ []) s)

abbrev pub three : (Kind → Handler → Bool) → Server Lists
three bad = record {
  list = λ kind s. (ok (list_of kind s), s);
  add = λ kind h s. three_add (bad kind h) kind h s;
  remove = λ kind tag s. (none, set_list kind (drop_tag tag (list_of kind s)) s);
}

-- No handler of the list has the tag.
abbrev pub Absent : String → List Handler → Type 0
Absent tag hs = contains (map (λ h. h.tag) hs) tag ≡ false

pub drop-Absent : (tag : String) (hs : List Handler) → Absent tag hs → drop_tag tag hs ≡ hs
unfolding select contains
drop-Absent tag [] a = refl
drop-Absent tag (h ∷ hs) a =
    ground (arith, drop-Absent tag hs, string_eq.beq_iff tag h.tag, string_eq.beq_iff h.tag tag)

-- What was appended is dropped again.
pub drop_appended :
    (h : Handler) (hs : List Handler) → Absent h.tag hs → drop_tag h.tag (hs ++ h ∷ []) ≡ hs
unfolding select contains
drop_appended h [] a = ground (arith, ==_refl h.tag)
drop_appended h (x ∷ hs) a =
    ground (arith, drop_appended h hs, string_eq.beq_iff h.tag x.tag, string_eq.beq_iff x.tag h.tag)
