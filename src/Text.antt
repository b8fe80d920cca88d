-- ===== src/Text.antt =====
-- Strings as JavaScript has them, lists of UTF-16 code units, with the standard functions that the
-- code calls on them: `toString`, `BigInt`, `trim`, `split`, `padStart`, `padEnd`.
pub mod Decimal
pub mod Trim
pub mod Order
use Prim.Native.Char.{code}
use Prim.Native.String
use mathlib.Core.List.{reverse}
use ghoststake.Prelude.{
  ℕ, zero, suc, ◌+◌, ◌-◌, ◌*◌, ◌/◌, ◌%◌, Bool, ◌&&◌, ◌||◌, Option, none, some, String, List, [],
  not, ◌∷◌, ◌++◌, ltb, leb, ◌==◌, if◌then◌else◌, length, replicate,
}
use ghoststake.Prelude.Int.{ℤ, pos, neg_ℕ}

abbrev pub Text : Type 0
Text = List ℕ

-- The code units of a literal in ASCII.
abbrev pub codes : String → Text
codes String.[] = []
codes (String.◌∷◌ c s) = code c ∷ codes s

-- The loop of `toString`, with more fuel than there are digits.
unfoldable pub digits : ℕ → ℕ → Text → Text
digits zero n out = out
digits (suc fuel) n out =
    let more = digits fuel (n / 10) ((b'0' + n % 10) ∷ out) in
    if ltb n 10 then (b'0' + n % 10) ∷ out else more

unfoldable pub to_string : ℕ → Text
unfolding digits
to_string n = digits (suc n) n []

unfoldable pub pad_start : Text → ℕ → ℕ → Text
pad_start t n c = replicate (n - length t) c ++ t

unfoldable pub pad_end : Text → ℕ → ℕ → Text
pad_end t n c = t ++ replicate (n - length t) c

-- What `trim` takes off.
abbrev pub is_space : ℕ → Bool
is_space c =
    (leb 9 c && leb c 13)
    || (c == 32
        || (c == 0xa0
            || (c == 0x1680
                || ((leb 0x2000 c && leb c 0x200a)
                    || (c == 0x2028
                        || (c == 0x2029
                            || (c == 0x202f || (c == 0x205f || (c == 0x3000 || c == 0xfeff)))))))))

unfoldable pub drop_spaces : Text → Text
drop_spaces [] = []
drop_spaces (c ∷ t) = let rest = drop_spaces t in if is_space c then rest else c ∷ t

unfoldable pub trim : Text → Text
unfolding drop_spaces
trim t = reverse (drop_spaces (reverse (drop_spaces t)))

cons_head : ℕ → List Text → List Text
cons_head c [] = (c ∷ []) ∷ []
cons_head c (part ∷ parts) = (c ∷ part) ∷ parts

unfoldable pub split : ℕ → Text → List Text
unfolding cons_head
split sep [] = [] ∷ []
split sep (c ∷ t) = let rest = split sep t in if c == sep then [] ∷ rest else cons_head c rest

-- The value of a digit in any radix up to 16; 16 for what is no digit.
abbrev pub digit_value : ℕ → ℕ
digit_value c =
    if leb b'0' c && leb c b'9'
    then c - b'0'
    else if leb b'a' c && leb c b'f'
    then c - 87
    else if leb b'A' c && leb c b'F'
    then c - 55
    else 16

unfoldable pub scan : ℕ → ℕ → Text → Option ℕ
scan radix n [] = some n
scan radix n (c ∷ t) =
    let rest = scan radix (n * radix + digit_value c) t in
    if ltb (digit_value c) radix then rest else none

-- One digit or more.
unfoldable pub literal : ℕ → Text → Option ℕ
unfolding scan
literal radix [] = none
literal radix (c ∷ t) = scan radix 0 (c ∷ t)

abbrev to_pos : Option ℕ → Option ℤ
to_pos none = none
to_pos (some n) = some (pos n)

abbrev to_neg : Option ℕ → Option ℤ
to_neg none = none
to_neg (some n) = some (neg_ℕ n)

-- A prefix such as `0x` gives the radix; without one, 10.
abbrev radix_of : ℕ → ℕ → ℕ
radix_of zero_digit letter =
    if not (zero_digit == b'0')
    then 10
    else if letter == b'x' || letter == b'X'
    then 16
    else if letter == b'o' || letter == b'O'
    then 8
    else if letter == b'b' || letter == b'B'
    then 2
    else 10

unsigned : Text → Option ℤ
unfolding literal
unsigned (a ∷ b ∷ t) =
    if radix_of a b == 10
    then to_pos (literal 10 (a ∷ b ∷ t))
    else to_pos (literal (radix_of a b) t)
unsigned t = to_pos (literal 10 t)

signed : Text → Option ℤ
unfolding unsigned
signed [] = some (pos 0)
signed (c ∷ t) =
    if c == b'-'
    then to_neg (literal 10 t)
    else if c == b'+'
    then to_pos (literal 10 t)
    else unsigned (c ∷ t)

-- `BigInt` of a string; `none` is its `SyntaxError`. The empty string is 0.
unfoldable pub big_int : Text → Option ℤ
unfolding signed
big_int t = signed (trim t)
