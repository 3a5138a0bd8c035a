-- ===== src/Server/Numbers.antt =====
-- strconv.Atoi and strings.CutPrefix, as the interceptors of backend/internal/api/grpc use them.
use Prim.Native.Char.{code}
use Prim.Native.String.{[], ◌∷◌}
use theapp.Prelude.{
  ℕ, ◌+◌, ◌-◌, ◌*◌, String, Bool, true, false, ◌&&◌, Option, none, some, leb, ltb, nat_beq, ◌==◌,
  string_comparable, if◌then◌else◌,
}

-- One digit after another; `none` where a character is no digit.
unfoldable pub digits : ℕ → String → Option ℕ
digits n [] = some n
digits n (c ∷ s) =
    let rest = digits (n * 10 + (code c - 48)) s in
    if leb 48 (code c) && leb (code c) 57 then rest else none

-- A signed 64-bit number, by its sign and size.
pub record Signed : Type 0 where
  pub negative : Bool
  pub size : ℕ

-- The sizes that fit in 64 bits: to 2^63 - 1, and to 2^63 for a negative number.
abbrev pub fits : Bool → ℕ → Bool
fits true n = leb n 0x8000000000000000
fits false n = ltb n 0x8000000000000000

abbrev pub in_range : Bool → Option ℕ → Option Signed
in_range sign none = none
in_range sign (some n) = if fits sign n then some (record { negative = sign; size = n }) else none

abbrev pub unsigned : Bool → String → Option Signed
unsigned sign s = if s == "" then none else in_range sign (digits 0 s)

-- strconv.Atoi; `none` is an error.
unfoldable pub atoi : String → Option Signed
unfolding digits
atoi [] = none
atoi (c ∷ s) =
    if nat_beq (code c) 45
    then unsigned true s
    else if nat_beq (code c) 43
    then unsigned false s
    else unsigned false (c ∷ s)

-- strings.CutPrefix; `none` where the text does not begin with the prefix.
unfoldable pub cut_prefix : String → String → Option String
cut_prefix s [] = some s
cut_prefix [] (d ∷ p) = none
cut_prefix (c ∷ s) (d ∷ p) =
    let rest = cut_prefix s p in if nat_beq (code c) (code d) then rest else none
