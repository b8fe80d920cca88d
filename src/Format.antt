-- ===== src/Format.antt =====
-- Figures as text (ghoststake-frontend/src/lib/format.ts). A locale's separators and its narrow
-- units come from the platform's `Intl` and are parameters; `formatInteger`, the dates and the
-- times are calls of `Intl` alone and are left out.
pub mod Health
pub mod Figures
use ghoststake.Prelude.{
  ℕ, ◌+◌, ◌-◌, ◌*◌, ◌/◌, ◌%◌, ◌^◌, Bool, not, ◌&&◌, Option, some, String, List, [], ◌∷◌, ◌++◌, ltb,
  ◌==◌, if◌then◌else◌, length, take, drop,
}
use ghoststake.Prelude.Int.{ℤ, pos, negsuc, nat_abs, scale, ltb_ℤ}
use ghoststake.Text.{Text, codes, to_string, pad_start}
use ghoststake.Rounds.{wad}

abbrev pub no_debt : ℕ
no_debt = 2 ^ 256 - 1

abbrev health_display_ceiling : ℕ
health_display_ceiling = 999 * wad

unfoldable pub has_debt : ℕ → Bool
has_debt health_factor = not (health_factor == no_debt)

pub data Rounding : Type 0 where
  half_up down : Rounding

abbrev bias : Rounding → ℕ → ℕ
bias half_up unit = unit / 2
bias down unit = 0

-- `scaled` of `formatFixed`.
unfoldable pub scaled : ℕ → ℕ → ℕ → Rounding → ℕ
scaled magnitude decimals fraction_digits rounding =
    (magnitude * 10 ^ fraction_digits + bias rounding (10 ^ decimals)) / 10 ^ decimals

-- The regular expression's insertions, a separator before every digit but the first that has a
-- multiple of three digits from it on.
unfoldable pub group_rest : Text → Text → Text
group_rest group [] = []
group_rest group (c ∷ t) =
    let rest = group_rest group t in
    if length (c ∷ t) % 3 == 0 then group ++ (c ∷ rest) else c ∷ rest

unfoldable pub group_digits : Text → Text → Text
group_digits group [] = []
group_digits group (c ∷ t) = c ∷ group_rest group t

abbrev is_negative : ℤ → Bool
is_negative (pos n) = Bool.false
is_negative (negsuc n) = Bool.true

-- `group` and `decimal` are the locale's separators.
unfoldable pub format_fixed : Text → Text → ℤ → ℕ → ℕ → Rounding → Text
unfolding scaled group_digits
format_fixed group decimal value decimals fraction_digits rounding =
    let n = scaled (nat_abs value) decimals fraction_digits rounding in
    let precision = 10 ^ fraction_digits in
    let whole = group_digits group (to_string (n / precision)) in
    let fraction =
      if ltb 0 fraction_digits
      then decimal ++ pad_start (to_string (n % precision)) fraction_digits b'0'
      else [] in
    (if is_negative value then b'-' ∷ [] else []) ++ (whole ++ fraction)

pub record Figure : Type 0 where
  pub lead : Text
  pub tail : Text

-- The separator of a locale is one code unit, `dot`.
unfoldable pub split_figure : ℕ → Text → Figure
split_figure dot [] = record { lead = []; tail = [] }
split_figure dot (c ∷ t) =
    let rest = split_figure dot t in
    if c == dot
    then record { lead = []; tail = c ∷ t }
    else record { lead = c ∷ rest.lead; tail = rest.tail }

unfoldable pub format_amount : Text → Text → ℤ → ℕ → ℕ → Text
unfolding format_fixed
format_amount group decimal value decimals fraction_digits =
    format_fixed group decimal value decimals fraction_digits half_up

unfoldable pub format_percent : Text → Text → ℤ → ℕ → Text
unfolding format_fixed
format_percent group decimal value fraction_digits =
    format_fixed group decimal value 16 fraction_digits half_up ++ (b'%' ∷ [])

unfoldable pub format_health_factor : Text → Text → ℕ → ℕ → Option Text
unfolding has_debt format_fixed
format_health_factor group decimal value fraction_digits =
    if not (has_debt value)
    then Option.none
    else if ltb health_display_ceiling value
    then some (codes "999+")
    else some (format_fixed group decimal (pos value) 18 fraction_digits down)

unfoldable pub format_apr : Text → Text → ℤ → ℕ → Text
unfolding format_percent
format_apr group decimal rate_per_second fraction_digits =
    format_percent group decimal (scale rate_per_second (365 * 24 * 60 * 60)) fraction_digits

pub data Measure : Type 0 where
  hour minute second : Measure

abbrev part_if : Bool → Text → List Text
part_if b part = if b then part ∷ [] else []

abbrev join_spaces : List Text → Text
join_spaces [] = []
join_spaces (p ∷ []) = p
join_spaces (p ∷ q ∷ ps) = p ++ (b' ' ∷ join_spaces (q ∷ ps))

-- The parts of `formatDuration`, in order; `format_unit` is the locale's narrow unit.
unfoldable pub duration_parts : (Measure → ℕ → Text) → ℕ → List Text
duration_parts format_unit seconds =
    let hours = seconds / 3600 in
    let minutes = (seconds % 3600) / 60 in
    let rest = seconds % 60 in
    part_if (ltb 0 hours) (format_unit hour hours)
    ++ (part_if (ltb 0 minutes) (format_unit minute minutes)
        ++ part_if (ltb 0 rest && hours == 0) (format_unit second rest))

unfoldable pub format_duration : (Measure → ℕ → Text) → ℕ → Text
unfolding duration_parts
format_duration format_unit seconds =
    if seconds == 0 then format_unit second 0 else join_spaces (duration_parts format_unit seconds)

pub data HealthBand : Type 0 where
  none safe caution danger : HealthBand

unfoldable pub health_band : ℕ → HealthBand
unfolding has_debt
health_band value =
    if not (has_debt value)
    then HealthBand.none
    else if ltb value ((wad * 12) / 10)
    then danger
    else if ltb value ((wad * 15) / 10)
    then caution
    else safe

unfoldable pub format_optional : Option ℕ → (ℕ → Text) → Option Text
format_optional Option.none format = Option.none
format_optional (some v) format = some (format v)

unfoldable pub shorten_address : Text → Text
shorten_address address = take 6 address ++ (0x2026 ∷ drop (length address - 4) address)
