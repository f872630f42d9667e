-- ===== src/Prelude/TextOrder.antt =====
-- The byte order of strings is an order: of two texts one is not the greater, and it is transitive.
use Prim.Native.Nat.{Ordering, compare as compare_ℕ}
use Prim.Native.Char.{Char, code}
use Prim.Native.String.{String, compare, then}
use Prim.Native.String.compare.{nil-nil, nil-cons, cons-nil, cons-cons}
use mathlib.Core.Path.{◌≡◌, sym, ◌∙◌}
use mathlib.Core.Logic.{◌≢◌}
use native.Mathlib.Omega.{arith}
use scd.Prelude.Text.{compare_str}

then_total :
    (c d : Char) (o p : Ordering)
    → then (compare_ℕ (code c) (code d)) o ≡ Ordering.gt
    → (o ≡ Ordering.gt → p ≢ Ordering.gt)
    → then (compare_ℕ (code d) (code c)) p ≢ Ordering.gt
then_total c d o p h k e = ground arith

pub compare_str-total :
    (a b : String) → compare_str a b ≡ Ordering.gt → compare_str b a ≢ Ordering.gt
compare_str-total String.[] String.[] h e = cc (nil-nil)
compare_str-total String.[] (String.◌∷◌ d t) h e = cc (nil-cons d t)
compare_str-total (String.◌∷◌ c s) String.[] h e = cc (nil-cons c s)
compare_str-total (String.◌∷◌ c s) (String.◌∷◌ d t) h e =
    then_total c d (compare s t) (compare t s) (sym (cons-cons c d s t) ∙ h) (compare_str-total s t)
      (sym (cons-cons d c t s) ∙ e)

then_trans :
    (c d f : Char) (o p q : Ordering)
    → then (compare_ℕ (code c) (code d)) o ≢ Ordering.gt
    → then (compare_ℕ (code d) (code f)) p ≢ Ordering.gt
    → (o ≢ Ordering.gt → p ≢ Ordering.gt → q ≢ Ordering.gt)
    → then (compare_ℕ (code c) (code f)) q ≢ Ordering.gt
then_trans c d f o p q h k l e = ground arith

pub compare_str_trans :
    (a b c : String)
    → compare_str a b ≢ Ordering.gt
    → compare_str b c ≢ Ordering.gt
    → compare_str a c ≢ Ordering.gt
compare_str_trans String.[] b String.[] h k e = cc (nil-nil)
compare_str_trans String.[] b (String.◌∷◌ d t) h k e = cc (nil-cons d t)
compare_str_trans (String.◌∷◌ c s) String.[] x h k e = h (cons-nil c s)
compare_str_trans (String.◌∷◌ c s) (String.◌∷◌ d t) String.[] h k e = k (cons-nil d t)
compare_str_trans (String.◌∷◌ c s) (String.◌∷◌ d t) (String.◌∷◌ f u) h k e =
    then_trans c d f (compare s t) (compare t u) (compare s u) (λ g. h (cons-cons c d s t ∙ g))
      (λ g. k (cons-cons d f t u ∙ g)) (λ a b. compare_str_trans s t u a b)
      (sym (cons-cons c f s u) ∙ e)
