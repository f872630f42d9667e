-- ===== src/Monitor/Plain.antt =====
-- internal/scd/monitor/repair.go: three lists, with additions that may be refused, are an Xray as a
-- repair relies on it.
use scd.Prelude.{
  ◌≡◌, ◌≢◌, refl, String, Bool, true, false, List, [], ◌∷◌, ◌++◌, contains, string_eq, select, map,
  arith,
}
use scd.Xray.{Handler, Kind, outbound, inbound, routing}
use scd.Apply.Outbounds.Plain.{drop_tag}
use scd.Apply.Slots.Three.{Lists, three, three_add}
use scd.Monitor.Single.{Shrinks, Documented}

abbrev pub tags : List Handler → List String
tags hs = map (λ h. h.tag) hs

-- An outbound of the tag is there.
abbrev pub listed : String → Lists → Bool
listed tag s = contains (tags s.outbounds) tag

drop-shrinks :
    (t tag : String) (hs : List Handler)
    → contains (tags (drop_tag t hs)) tag ≡ true
    → contains (tags hs) tag ≡ true
unfolding contains select
drop-shrinks t tag [] e = e
drop-shrinks t tag (h ∷ hs) e = ground (arith, e, drop-shrinks t tag hs)

pub dropped : (t : String) (hs : List Handler) → contains (tags (drop_tag t hs)) t ≡ false
unfolding contains select
dropped t [] = refl
dropped t (h ∷ hs) =
    ground (arith, dropped t hs, string_eq.beq_iff t h.tag, string_eq.beq_iff h.tag t)

pub appended :
    (h : Handler) (tag : String) (hs : List Handler)
    → tag ≢ h.tag
    → contains (tags (hs ++ h ∷ [])) tag ≡ true
    → contains (tags hs) tag ≡ true
unfolding contains
appended h tag [] n e =
    ground (arith, e, n, string_eq.beq_iff tag h.tag, string_eq.beq_iff h.tag tag)
appended h tag (x ∷ hs) n e = ground (arith, e, appended h tag hs n)

module _ (bad : Kind → Handler → Bool) where
  add_rule-Shrinks :
      (b : Bool) (h : Handler) (s : Lists) → Shrinks listed s (three_add b routing h s).1
  add_rule-Shrinks true h s = λ tag e. e
  add_rule-Shrinks false h s = λ tag e. e

  add_outbound-others :
      (b : Bool) (h : Handler) (s : Lists) (tag : String)
      → tag ≢ h.tag
      → listed tag (three_add b outbound h s).1 ≡ true
      → listed tag s ≡ true
  add_outbound-others true h s tag n e = e
  add_outbound-others false h s tag n e = appended h tag s.outbounds n e

  remove-Shrinks :
      (k : Kind) (t : String) (s : Lists) → Shrinks listed s ((three bad).remove k t s).1
  remove-Shrinks outbound t s = λ tag e. drop-shrinks t tag s.outbounds e
  remove-Shrinks inbound t s = λ tag e. e
  remove-Shrinks routing t s = λ tag e. e

  pub three-Documented : Documented (three bad) listed
  three-Documented = record {
    lists_shrink = λ k s tag e. e;
    removes_shrink = remove-Shrinks;
    removed = λ t s e. dropped t s.outbounds;
    rules_shrink = λ h s. add_rule-Shrinks (bad routing h) h s;
    added = λ h s tag. add_outbound-others (bad outbound h) h s tag;
  }
