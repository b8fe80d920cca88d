-- ===== src/Positions.antt =====
-- What an account's positions came to, as the API reports them
-- (ghoststake-frontend/src/lib/positions.ts). An amount crosses the wire as a decimal string of an
-- unsigned integer, which `BigInt` reads; the model holds the number.
pub mod Results
use ghoststake.Prelude.{ℕ, ◌+◌, Bool, ◌&&◌, not, Option, some, ltb, if◌then◌else◌}
use ghoststake.Text.{Text}
use ghoststake.Resolution.{RoundQuestion}
use ghoststake.Prelude.Int.{ℤ, sub_ℕ}

pub data RoundStatus : Type 0 where
  opened locked resolved void other : RoundStatus

-- `winner` on the wire: up, down, or anything else, the missing field included.
pub data Winner : Type 0 where
  up down other : Winner

pub record PositionRound : Type 0 where
  pub market : Text
  pub id : ℕ
  pub status : RoundStatus
  pub phase : Text
  pub is_entry_open : Bool
  pub open_time : Text
  pub lock_time : Text
  pub close_time : Text
  pub up_pool : ℕ
  pub down_pool : ℕ
  pub total_pool : ℕ
  pub up_odds : Text
  pub down_odds : Text
  pub lock_price : Option Text
  pub close_price : Option Text
  pub winner : Winner
  pub rake_taken : Option ℕ
  pub void_reason : Option Text
  pub question : Option RoundQuestion
  pub last_block : ℕ

pub record Position : Type 0 where
  pub round : PositionRound
  pub up_stake : ℕ
  pub down_stake : ℕ
  pub total_stake : ℕ
  pub claimable : ℕ
  pub claimed : Bool
  pub claimed_amount : ℕ
  pub is_leveraged : Bool
  pub opened_at : Text

pub data Outcome : Type 0 where
  won lost void opened : Outcome

abbrev pub returned : Position → ℕ
returned p = if p.claimed then p.claimed_amount else p.claimable

abbrev won_if : ℕ → Outcome
won_if amount = if ltb 0 amount then won else lost

abbrev resolved_outcome : Winner → Position → Outcome
resolved_outcome Winner.up p = won_if p.up_stake
resolved_outcome Winner.down p = won_if p.down_stake
resolved_outcome Winner.other p = won_if (returned p)

abbrev outcome_by_status : RoundStatus → Outcome → Outcome
outcome_by_status RoundStatus.void settled = Outcome.void
outcome_by_status RoundStatus.resolved settled = settled
outcome_by_status _ settled = Outcome.opened

unfoldable pub outcome_of : Position → Outcome
outcome_of p = outcome_by_status p.round.status (resolved_outcome p.round.winner p)

abbrev unless_open : Outcome → ℤ → Option ℤ
unless_open Outcome.opened net = Option.none
unless_open _ net = some net

unfoldable pub net_of : Position → Option ℤ
unfolding outcome_of
net_of p = unless_open (outcome_of p) (sub_ℕ (returned p) p.total_stake)

unfoldable pub is_unclaimed : Position → Bool
is_unclaimed p = not p.claimed && ltb 0 p.claimable

pub data Taken : Type 0 where
  up down both none : Taken

unfoldable pub side_taken : Position → Taken
side_taken p =
    if ltb 0 p.up_stake && ltb 0 p.down_stake
    then both
    else if ltb 0 p.up_stake
    then Taken.up
    else if ltb 0 p.down_stake
    then Taken.down
    else Taken.none

-- `b.round.lastBlock - a.round.lastBlock`.
unfoldable pub by_recency : Position → Position → ℤ
by_recency a b = sub_ℕ b.round.last_block a.round.last_block
