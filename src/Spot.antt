-- ===== src/Spot.antt =====
-- Where a price sits against a round's strike, and the level a new round asks about
-- (ghoststake-frontend/src/lib/spot.ts and strike.ts). Prices are what the contract holds,
-- unsigned with 18 decimals. `Number` of the move in basis points is taken as exact.
pub mod Leader
pub mod Strike
use ghoststake.Prelude.{
  ℕ, ◌+◌, ◌-◌, ◌*◌, ◌/◌, ◌%◌, ◌^◌, Bool, ◌||◌, Option, none, some, ltb, leb, ◌==◌, if◌then◌else◌,
  length,
}
use ghoststake.Prelude.Int.{ℤ, sub_ℕ, scale, tdiv, nat_abs}
use ghoststake.Text.{to_string}
use ghoststake.Rounds.{Side, wad}

pub record Standing : Type 0 where
  pub leading : Option Side
  pub bps : Option ℤ

abbrev unknown : Standing
unknown = record { leading = none; bps = none }

abbrev pub standing_at : ℕ → ℕ → Standing
standing_at spot strike = if (strike == 0) || (spot == 0) then unknown else record {
  leading = some (if ltb strike spot then Side.up else Side.down);
  bps = some (tdiv (scale (sub_ℕ spot strike) 10000) strike);
}

unfoldable pub standing_of : Option ℕ → Option ℕ → Standing
standing_of spot strike = elim spot [
  | none ↦ unknown
  | some p ↦ elim strike [ none ↦ unknown | some k ↦ standing_at p k ]
]

unfoldable pub is_narrow : ℤ → Bool
is_narrow bps = ltb (nat_abs bps) 10

-- An age below zero is clamped to zero, as the difference of numbers is.
unfoldable pub price_age : Option ℕ → Option ℕ → Option ℕ
price_age updated_at now = elim updated_at [
  | none ↦ none
  | some at ↦ elim now [ none ↦ none | some n ↦ some (n - at) ]
]

pub data Age : Type 0 where
  just_now : Age
  in_minutes : ℕ → Age
  in_hours : ℕ → Age
  in_hours_minutes : ℕ → ℕ → Age

-- `Math.round(seconds / 60)` of whole seconds.
abbrev round_minutes : ℕ → ℕ
round_minutes seconds = (seconds + 30) / 60

unfoldable pub format_age : ℕ → Age
format_age seconds =
    let minutes = round_minutes seconds in
    if ltb seconds 90
    then just_now
    else if ltb minutes 60
    then in_minutes minutes
    else if minutes % 60 == 0
    then in_hours (minutes / 60)
    else in_hours_minutes (minutes / 60) (minutes % 60)

unfoldable pub is_stale_print : ℕ → Bool
is_stale_print seconds = leb (30 * 60) seconds

-- The exponent is `Math.max(16, 18 + digits - 3)`.
unfoldable pub strike_step : ℕ → ℕ
strike_step spot =
    let whole = spot / wad in
    let digits = if whole == 0 then 0 else length (to_string whole) in
    10 ^ (if leb (15 + digits) 16 then 16 else 15 + digits)

abbrev strike_at : ℕ → ℕ → ℕ
strike_at spot step =
    let strike = ((spot + step / 2) / step) * step in if strike == 0 then step else strike

unfoldable pub strike_for : Option ℕ → Option ℕ
strike_for spot = elim spot [
  | none ↦ none
  | some p ↦ if p == 0 then none else some (strike_at p (strike_step p))
]
