-- ===== src/Country.antt =====
-- internal/scd/country/country.go: the country of a label (its flag emoji) or of an ISO2 code.
mod Table
pub mod Codes
use Prim.Native.Char.{Char, code}
use Prim.Native.String.{char_at, ◌∷◌, []}
pub use Table.{Names}
use Table.{table}
use scd.Prelude.{
  ℕ, ◌+◌, ◌-◌, ◌*◌, String, Bool, ◌&&◌, Option, none, some, leb, lookup, if◌then◌else◌, string_eq,
}

pub record Info : Type 0 where
  pub emoji : String
  pub iso2 : String
  pub name_en : String
  pub name_ru : String

-- The rune of the regional indicator A, and how many follow it up to Z.
abbrev regional_a : ℕ
regional_a = 0x1F1E6

is_regional : ℕ → Bool
is_regional r = leb regional_a r && leb r (regional_a + 25)

-- byte('A' + r - regionalA)
letter : ℕ → Char
letter r = char_at "ABCDEFGHIJKLMNOPQRSTUVWXYZ" (r - regional_a)

-- The info of an ISO code and its flag, if the table has the code.
named : Option Names → String → String → Option Info
named none iso flag = none
named (some n) iso flag = some (record { emoji = flag; iso2 = iso; name_en = n.en; name_ru = n.ru })

flag_country : Char → Char → Option Info
unfolding letter named
flag_country a b =
    let iso = letter (code a) ∷ letter (code b) ∷ [] in named (lookup iso table) iso (a ∷ b ∷ [])

-- The first two runes decide; a label with fewer, or with another rune there, has no country.
unfoldable pub from_label : String → Option Info
unfolding is_regional flag_country
from_label (a ∷ b ∷ rest) =
    if is_regional (code a) && is_regional (code b) then flag_country a b else none
from_label _ = none

is_upper : ℕ → Bool
is_upper c = leb b'A' c && leb c b'Z'

-- regionalA + rune(c - 'A'): a regional indicator takes four bytes.
flag_rune : ℕ → Char
flag_rune c = char_at "🇦🇧🇨🇩🇪🇫🇬🇭🇮🇯🇰🇱🇲🇳🇴🇵🇶🇷🇸🇹🇺🇻🇼🇽🇾🇿" (4 * (c - b'A'))

unfoldable pub from_iso2 : String → Option Info
unfolding is_upper flag_rune from_label
from_iso2 (a ∷ b ∷ []) =
    if is_upper (code a) && is_upper (code b)
    then from_label (flag_rune (code a) ∷ flag_rune (code b) ∷ [])
    else none
from_iso2 _ = none
