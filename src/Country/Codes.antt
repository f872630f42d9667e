-- ===== src/Country/Codes.antt =====
-- internal/scd/country/country.go: FromISO2 and FromLabel on the flags of the 26 letters.
use Prim.Native.Char.{Char, code}
use Prim.Native.String.{◌∷◌, []}
use text.Mathlib.TextEquality.{Char-path}
use scd.Prelude.{
  ℕ, ◌≡◌, ◌<◌, ◌-◌, ◌+◌, String, Bool, true, Option, some, arith, all_below, all_below_lem, nat_beq,
  nat_beq_iff, refl, ◌∙◌, if_some_lem, and_true,
}
use scd.Country.{
  Info, Names, from_iso2, from_label, letter, flag_rune, is_upper, flag_country, named,
}

-- Of the 26 upper-case letters: the flag rune is a regional indicator, and its letter is the one given.
abbrev round_trips : ℕ → Bool
round_trips n = nat_beq (code (letter (code (flag_rune (n + b'A'))))) (n + b'A')

round_trips_table : all_below 26 round_trips ≡ true
unfolding all_below letter flag_rune
round_trips_table = refl

upper_code : (n : ℕ) → is_upper n ≡ true → code (letter (code (flag_rune n))) ≡ n
unfolding is_upper
upper_code n h =
    let e : n - b'A' + b'A' ≡ n = ground arith in
    let b : n - b'A' < 26 = ground arith in
    rw e at ((nat_beq_iff _ _).0 (all_below_lem 26 round_trips round_trips_table (n - b'A') b))

letter-flag_rune : (c : Char) → is_upper (code c) ≡ true → letter (code (flag_rune (code c))) ≡ c
letter-flag_rune c h = Char-path _ c (upper_code (code c) h)

iso2-named :
    (o : Option Names) (iso flag : String) (i : Info) → named o iso flag ≡ some i → i.iso2 ≡ iso
unfolding named
iso2-named o iso flag i h = ground arith

iso2-flag_country :
    (a b : Char) (i : Info)
    → flag_country a b ≡ some i
    → i.iso2 ≡ (letter (code a) ∷ letter (code b) ∷ [])
unfolding flag_country
iso2-flag_country a b i h = iso2-named _ _ _ i h

iso2-from_label :
    (a b : Char) (rest : String) (i : Info)
    → from_label (a ∷ b ∷ rest) ≡ some i
    → i.iso2 ≡ (letter (code a) ∷ letter (code b) ∷ [])
iso2-from_label a b rest i h = iso2-flag_country a b i (unfold from_label in ground arith)

-- FromISO2 answers only for two upper-case letters, and the info that it returns has them as its
-- ISO2 code.
pub from_iso2-iso2 : (s : String) (i : Info) → from_iso2 s ≡ some i → i.iso2 ≡ s
unfolding from_iso2
from_iso2-iso2 (a ∷ b ∷ []) i h =
    let (test, found) = if_some_lem _ _ h in
    let (up_a, up_b) = and_true _ _ test in
    iso2-from_label (flag_rune (code a)) (flag_rune (code b)) [] i found
    ∙ cc (letter-flag_rune a up_a, letter-flag_rune b up_b)
from_iso2-iso2 (a ∷ b ∷ c ∷ r) i h = cc
from_iso2-iso2 (a ∷ []) i h = cc
from_iso2-iso2 [] i h = cc
