-- ===== src/Base/Text.antt =====
-- Go's strings: `strings.TrimSpace`, emptiness and concatenation.
use Prim.Native.Char.{Char, code}
use Prim.Native.Nat.{ℕ, zero, suc, ◌/◌, ◌%◌}
use Prim.Native.String.{String, ◌++◌ as str_append}
use mathlib.Core.Path.{◌≡◌, refl}
use mathlib.Core.Bool.{Bool, true, false, ◌&&◌, ◌||◌}
use chihuo.Base.Tests.{leb, ◌==◌, if◌then◌else◌}

-- `unicode.IsSpace`, the White_Space code points.
is_space_code : ℕ → Bool
is_space_code c =
    (leb 9 c && leb c 13)
    || c == 32
    || c == 0x85
    || c == 0xa0
    || c == 0x1680
    || (leb 0x2000 c && leb c 0x200a)
    || c == 0x2028
    || c == 0x2029
    || c == 0x202f
    || c == 0x205f
    || c == 0x3000

unfoldable pub is_space : Char → Bool
unfolding is_space_code
is_space c = is_space_code (code c)

abbrev pub is_empty : String → Bool
is_empty String.[] = true
is_empty (String.◌∷◌ c s) = false

unfoldable pub trim_left : String → String
unfolding is_space
trim_left String.[] = String.[]
trim_left (String.◌∷◌ c s) = if is_space c then trim_left s else String.◌∷◌ c s

unfoldable pub trim_right : String → String
unfolding is_space
trim_right String.[] = String.[]
trim_right (String.◌∷◌ c s) =
    let rest = trim_right s in if is_space c && is_empty rest then String.[] else String.◌∷◌ c rest

-- `strings.TrimSpace`.
unfoldable pub trim_space : String → String
unfolding trim_left trim_right
trim_space s = trim_right (trim_left s)

trims_both_ends : trim_space "  a b \n" ≡ "a b"
unfolding trim_space
trims_both_ends = refl

-- The decimal digit of a number below 10.
unfoldable pub digit_text : ℕ → String
digit_text n =
    if n == 0
    then "0"
    else if n == 1
    then "1"
    else if n == 2
    then "2"
    else if n == 3
    then "3"
    else if n == 4
    then "4"
    else if n == 5
    then "5"
    else if n == 6
    then "6"
    else if n == 7
    then "7"
    else if n == 8
    then "8"
    else "9"

-- The digits of n, with fuel that n itself suffices for.
decimal_digits : ℕ → ℕ → String
unfolding digit_text
decimal_digits zero n = digit_text n
decimal_digits (suc fuel) n =
    let front = decimal_digits fuel (n / 10) in
    if leb 10 n then str_append front (digit_text (n % 10)) else digit_text n

-- `fmt.Sprintf("%d", n)` of an unsigned number.
unfoldable pub decimal : ℕ → String
unfolding decimal_digits
decimal n = decimal_digits n n

prints_in_decimal : decimal 1207 ≡ "1207"
unfolding decimal
prints_in_decimal = refl
