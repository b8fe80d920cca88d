-- ===== src/Amount.antt =====
-- Amounts that someone types (ghoststake-frontend/src/lib/amount.ts), and the field that they are
-- typed into (`sanitise` and `toDecimalString` of ghoststake-frontend/src/components/AmountField.tsx).
pub mod RoundTrip
pub mod Problems
use mathlib.Core.List.{reverse}
use ghoststake.Prelude.{
  ℕ, ◌+◌, ◌*◌, ◌/◌, ◌%◌, ◌^◌, Bool, true, false, ◌&&◌, ◌||◌, Option, none, some, List, [], ◌∷◌,
  ◌++◌, ltb, leb, ◌==◌, if◌then◌else◌, length, filter,
}
use ghoststake.Prelude.Int.{ℤ, pos, ◌+ℤ◌, scale}
use ghoststake.Text.{Text, codes, to_string, pad_start, pad_end, trim, split, big_int}

-- `trimmed === "" || trimmed === "."`: a field that is still being typed into.
abbrev pub is_unfinished : Text → Bool
is_unfinished [] = true
is_unfinished (c ∷ []) = c == b'.'
is_unfinished (c ∷ d ∷ t) = false

-- `const [whole = "0", fraction = ""] = trimmed.split(".")`
abbrev pub whole_of : List Text → Text
whole_of [] = codes "0"
whole_of (whole ∷ parts) = whole

abbrev pub fraction_of : List Text → Text
fraction_of (whole ∷ fraction ∷ parts) = fraction
fraction_of _ = []

-- `s || "0"`
abbrev pub or_zero : Text → Text
or_zero [] = codes "0"
or_zero (c ∷ t) = c ∷ t

abbrev add_parts : Option ℤ → Option ℤ → ℕ → Option ℤ
add_parts (some whole) (some fraction) unit = some (scale whole unit +ℤ fraction)
add_parts (some whole) none unit = none
add_parts none fraction unit = none

-- `none` is the `null` of `parseAmount`; a `SyntaxError` of `BigInt` is caught and gives it too.
unfoldable pub parse_amount : Text → ℕ → Option ℤ
parse_amount input decimals =
    let trimmed = trim input in
    let fraction = fraction_of (split b'.' trimmed) in
    if is_unfinished trimmed
    then none
    else if ltb decimals (length fraction)
    then none
    else add_parts (big_int (whole_of (split b'.' trimmed)))
        (big_int (or_zero (pad_end fraction decimals b'0'))) (10 ^ decimals)

-- The message, with the values that it shows.
pub data AmountProblem : Type 0 where
  no_decimals : AmountProblem
  too_precise : (decimals given : ℕ) → AmountProblem
  not_an_amount : AmountProblem

abbrev unless_read : Option ℤ → Option AmountProblem
unless_read none = some not_an_amount
unless_read (some amount) = none

unfoldable pub amount_problem : Text → ℕ → Option AmountProblem
amount_problem input decimals =
    let trimmed = trim input in
    let given = length (fraction_of (split b'.' trimmed)) in
    if is_unfinished trimmed
    then none
    else if ltb decimals given
    then some (if decimals == 0 then no_decimals else too_precise decimals given)
    else unless_read (parse_amount trimmed decimals)

-- `/[^\d.]/g` keeps these.
abbrev pub is_amount_char : ℕ → Bool
is_amount_char c = (leb b'0' c && leb c b'9') || c == b'.'

-- `${whole}.${rest.join("")}`
unfoldable pub join_rest : List Text → Text
join_rest [] = []
join_rest (part ∷ parts) = part ++ join_rest parts

rejoin : List Text → Text
unfolding join_rest
rejoin [] = []
rejoin (whole ∷ []) = whole
rejoin (whole ∷ part ∷ parts) = whole ++ b'.' ∷ join_rest (part ∷ parts)

unfoldable pub sanitise : Text → Text
unfolding rejoin
sanitise raw = rejoin (split b'.' (filter is_amount_char raw))

-- `replace(/0+$/, "")`
unfoldable pub drop_zeros : Text → Text
drop_zeros [] = []
drop_zeros (c ∷ t) = let rest = drop_zeros t in if c == b'0' then rest else c ∷ t

unfoldable pub strip_zeros : Text → Text
unfolding drop_zeros
strip_zeros t = reverse (drop_zeros (reverse t))

unfoldable pub to_decimal_string : ℕ → ℕ → Text
unfolding strip_zeros
to_decimal_string value decimals =
    let unit = 10 ^ decimals in
    let whole = value / unit in
    let fraction = value % unit in
    let padded = strip_zeros (pad_start (to_string fraction) decimals b'0') in
    if fraction == 0 then to_string whole else to_string whole ++ b'.' ∷ padded
