-- ===== src/Text.antt =====
-- The functions of Go's package strings that the program calls, over texts of code points.
pub mod Laws
use Prim.Native.Char.{Char, code}
use Prim.Native.String.{[], ◌∷◌}
use theapp.Prelude.{
  ℕ, String, Bool, ◌&&◌, ◌||◌, ◌==◌, string_comparable, leb, nat_beq, if◌then◌else◌,
}

-- unicode.IsSpace, on the code points of the Unicode property White_Space.
unfoldable pub is_space : ℕ → Bool
is_space c =
    (leb 9 c && leb c 13)
    || nat_beq c 32
    || nat_beq c 0x85
    || nat_beq c 0xa0
    || nat_beq c 0x1680
    || (leb 0x2000 c && leb c 0x200a)
    || nat_beq c 0x2028
    || nat_beq c 0x2029
    || nat_beq c 0x202f
    || nat_beq c 0x205f
    || nat_beq c 0x3000

unfoldable pub trim_left : String → String
unfolding is_space
trim_left [] = []
trim_left (c ∷ s) = let rest = trim_left s in if is_space (code c) then rest else c ∷ s

abbrev pub is_empty : String → Bool
is_empty s = s == ""

-- A trailing blank is one behind which only blanks stand.
abbrev pub keep_unless_blank : Bool → Char → String → String
keep_unless_blank blank c rest = if is_empty rest && blank then [] else c ∷ rest

unfoldable pub trim_right : String → String
unfolding is_space
trim_right [] = []
trim_right (c ∷ s) = keep_unless_blank (is_space (code c)) c (trim_right s)

-- strings.TrimSpace
unfoldable pub trim_space : String → String
unfolding trim_left trim_right
trim_space s = trim_left (trim_right s)
