-- ===== src/Apply/Cap.antt =====
-- internal/scd/apply/cap.go: the check of maxActive before an outbound is added.
pub mod Limit
use scd.Prelude.{
  ℕ, suc, ◌+◌, ◌<◌, ◌≤◌, ◌≡◌, String, Bool, true, false, not, ◌&&◌, Option, none, some, List, [],
  ◌∷◌, ltb, leb, contains, string_eq, select, length, if◌then◌else◌, append,
}
use scd.Xray.{Server, World, Error, Result, ok, err, Handler, outbound, list, add}
use scd.Apply.Steps.{and_then, guarded}
use scd.Apply.{Owner, Namespace, owns}

-- ErrCapReached; the counts of its text are not modelled.
abbrev pub cap_reached : Error
cap_reached = record {
  message = "the source already has maxActive outbounds in Xray";
  unavailable = false;
  is_cap_reached = true;
}

-- The outbounds that count: owned and not fixed.
unfoldable pub counts : List String → Owner → Handler → Bool
counts fixed owner h = not (contains fixed h.tag) && owner outbound h.tag

abbrev pub count_owned : List String → Owner → List Handler → ℕ
count_owned fixed owner hs = length (select (counts fixed owner) hs)

unfoldable pub refuse : List String → Owner → ℕ → Result (List Handler) → Option Error
refuse fixed owner limit (err e) = some e
refuse fixed owner limit (ok hs) =
    if leb limit (count_owned fixed owner hs) then some cap_reached else none

module _ {S : Type 0} (srv : Server S) where
  unfoldable pub check_cap : List String → Owner → ℕ → World S → Option Error × World S
  unfolding refuse
  check_cap fixed owner limit w =
      let (r, w') = list srv outbound w in (refuse fixed owner limit r, w')

  -- The checks of capped.AddOutbound: one for each source whose namespace holds the tag.
  unfoldable pub check_all :
      List String → List (Namespace × ℕ) → Handler → World S → Option Error × World S
  unfolding guarded
  check_all fixed [] h w = (none, w)
  check_all fixed ((n, limit) ∷ sources) h w =
      guarded (owns n outbound h.tag) (check_cap fixed (owns n) limit) (check_all fixed sources h) w

  -- capped.AddOutbound, of a client made by Capped for the sources that have maxActive.
  unfoldable pub capped_add :
      List String → List (Namespace × ℕ) → Handler → World S → Option Error × World S
  unfolding and_then
  capped_add fixed sources h w = and_then (check_all fixed sources h w) (λ v. add srv outbound h v)
