-- ===== src/Strings.antt =====
-- What the program uses of Go's package strings, and its comparison of strings. A string is the
-- list of its code points (byte sequences that are not UTF-8 are left out). The order of code
-- points is the order of their UTF-8 bytes, which Go compares.
use Prim.Native.Char.{code}
use Prim.Native.String.{String}
use litime_timescaledb_inser.Prelude.{
  ℕ, ◌-◌, ◌+◌, ◌≡◌, Bool, true, false, ◌&&◌, ◌||◌, List, [], ◌∷◌, ◌++◌, map, arith, ltb, leb, ◌==◌,
  if◌then◌else◌, is_empty,
}
use mathlib.Core.List.{reverse}
pub mod Laws

abbrev pub Text : Type 0
Text = List ℕ

-- A string literal of the source.
abbrev pub codes : String → Text
codes String.[] = []
codes (String.◌∷◌ c s) = code c ∷ codes s

-- unicode.IsSpace: the white space of Latin-1 and the White_Space property above it.
unfoldable pub is_space : ℕ → Bool
is_space c =
    (leb 9 c && leb c 13)
    || c == 32
    || c == 0x85
    || c == 0xA0
    || c == 0x1680
    || (leb 0x2000 c && leb c 0x200A)
    || c == 0x2028
    || c == 0x2029
    || c == 0x202F
    || c == 0x205F
    || c == 0x3000

unfoldable pub trim_left : Text → Text
trim_left [] = []
trim_left (c ∷ s) = if is_space c then trim_left s else c ∷ s

-- Trailing space goes where everything behind it is gone too.
unfoldable pub trim_right : Text → Text
trim_right [] = []
trim_right (c ∷ s) = let rest = trim_right s in if is_empty rest && is_space c then [] else c ∷ rest

unfoldable pub trim_space : Text → Text
unfolding trim_left trim_right is_space
trim_space s = trim_right (trim_left s)

-- A case table of package unicode is the argument `above`, for the runes from 128 on.
unfoldable pub upper : (ℕ → ℕ) → ℕ → ℕ
upper above c = if leb 128 c then above c else if leb b'a' c && leb c b'z' then c - 32 else c

unfoldable pub lower : (ℕ → ℕ) → ℕ → ℕ
lower above c = if leb 128 c then above c else if leb b'A' c && leb c b'Z' then c + 32 else c

unfoldable pub to_upper : (ℕ → ℕ) → Text → Text
unfolding upper
to_upper above = map (upper above)

unfoldable pub to_lower : (ℕ → ℕ) → Text → Text
unfolding lower
to_lower above = map (lower above)

-- `a == b` on strings.
unfoldable pub text_eq : Text → Text → Bool
text_eq [] [] = true
text_eq (c ∷ s) (d ∷ t) = c == d && text_eq s t
text_eq _ _ = false

-- `a < b` on strings.
unfoldable pub text_lt : Text → Text → Bool
text_lt [] [] = false
text_lt [] (d ∷ t) = true
text_lt (c ∷ s) [] = false
text_lt (c ∷ s) (d ∷ t) = ltb c d || (c == d && text_lt s t)
