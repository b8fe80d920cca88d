-- ===== src/Rounds.antt =====
-- A round as the market contract reports it, and what the screens derive from it
-- (ghoststake-frontend/src/lib/rounds.ts). Times, pools and rates come from the contract as
-- unsigned integers; a difference that may be negative is an integer.
pub mod Entry
pub mod Shares
use ghoststake.Prelude.{
  ℕ, ◌+◌, ◌-◌, ◌*◌, ◌/◌, ◌^◌, Bool, true, false, ◌||◌, ◌&&◌, not, Option, some, String, ltb, leb,
  ◌==◌, if◌then◌else◌, ◌%◌, ◌++◌, ◌∷◌,
}
use ghoststake.Prelude.Int.{ℤ, sub_ℕ, scale, tdiv, pos_part}
use ghoststake.Text.{Text, to_string, pad_start}

-- `WAD` of ghoststake-frontend/src/lib/format.ts: the fixed-point one.
abbrev pub wad : ℕ
wad = 10 ^ 18

-- `Status`; `opened` is `Open`, a reserved word here.
pub data Status : Type 0 where
  none opened locked resolved void : Status

-- `Phase`
pub data Phase : Type 0 where
  none opened cutoff observation resolved void : Phase

pub data Side : Type 0 where
  up down : Side

pub record Round : Type 0 where
  pub open_time : ℕ
  pub lock_time : ℕ
  pub close_time : ℕ
  pub status : Status
  pub winner : ℕ
  pub lock_price : ℕ
  pub close_price : ℕ
  pub lock_oracle_round_id : ℕ
  pub up_pool : ℕ
  pub down_pool : ℕ
  pub rake_taken : ℕ

-- `round.status === Status.Open`
abbrev pub is_opened : Status → Bool
is_opened Status.opened = true
is_opened _ = false

abbrev pub is_locked : Status → Bool
is_locked Status.locked = true
is_locked _ = false

unfoldable pub entry_open : Round → ℕ → ℕ → Bool
entry_open round entry_cutoff now_seconds =
    if not (is_opened round.status)
    then false
    else if ltb now_seconds round.open_time
    then false
    else ltb (now_seconds + entry_cutoff) round.lock_time

unfoldable pub entry_closes_at : Round → ℕ → ℤ
entry_closes_at round entry_cutoff = sub_ℕ round.lock_time entry_cutoff

abbrev pub side_pool : Round → Side → ℕ
side_pool round Side.up = round.up_pool
side_pool round Side.down = round.down_pool

-- `null` while the side is empty.
unfoldable pub multiple_for : Round → Side → ℕ → Option ℤ
multiple_for round side rake =
    let pool = side_pool round side in
    let total = round.up_pool + round.down_pool in
    let distributable = sub_ℕ total ((total * rake) / wad) in
    if pool == 0 then Option.none else some (tdiv (scale distributable wad) pool)

unfoldable pub will_void_on_lock : Round → ℕ → Bool
will_void_on_lock round min_side_pool =
    ltb round.up_pool min_side_pool || ltb round.down_pool min_side_pool

unfoldable pub phase_key : Phase → String
phase_key Phase.opened = "open"
phase_key Phase.cutoff = "cutoff"
phase_key Phase.observation = "running"
phase_key Phase.resolved = "settled"
phase_key Phase.void = "voided"
phase_key Phase.none = "unknown"

-- The percentage on the Up side in tenths of a percent, since it is a number with one decimal.
unfoldable pub up_share : Round → Option ℕ
up_share round =
    let total = round.up_pool + round.down_pool in
    if total == 0 then Option.none else some ((round.up_pool * 1000) / total)

pub record Percents : Type 0 where
  pub up : ℕ
  pub down : ℕ

-- `Math.round` of a number given in tenths: a half goes up.
abbrev pub round_tenths : ℕ → ℕ
round_tenths tenths = (tenths + 5) / 10

unfoldable pub side_percents : Round → Option Percents
unfolding up_share
side_percents round = elim (up_share round) [
  | Option.none ↦ Option.none
  | some share ↦ let up = round_tenths share in some (record { up = up; down = 100 - up })
]

-- Two digits at least.
abbrev pad : ℕ → Text
pad n = pad_start (to_string n) 2 b'0'

-- `seconds` below zero counts as zero.
unfoldable pub format_countdown : ℤ → Text
format_countdown seconds =
    let total = pos_part seconds in
    let h = total / 3600 in
    let m = (total % 3600) / 60 in
    let rest = pad m ++ (b':' ∷ pad (total % 60)) in
    if ltb 0 h then to_string h ++ (b':' ∷ rest) else rest
