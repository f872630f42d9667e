-- ===== src/Prelude/Text.antt =====
-- Go strings: prefixes, suffixes and the byte order of strings.Compare, which on valid UTF-8 is the
-- order of the code points.
use Prim.Native.Nat.{Ordering}
use Prim.Native.String.{String, ◌++◌, compare}
use mathlib.Core.Bool.{Bool}
use text.Mathlib.Text.{starts_with}

-- Go's `+` on strings.
abbrev pub append : String → String → String
append s t = s ++ t

-- strings.Compare
abbrev pub compare_str : String → String → Ordering
compare_str s t = compare s t

-- strings.HasPrefix, the text first.
abbrev pub has_prefix : String → String → Bool
has_prefix s p = starts_with s p
