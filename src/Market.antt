-- ===== src/Market.antt =====
-- The guards of the market contract that the operator console restates: the round's lifecycle in
-- ghoststake-contracts/src/ParimutuelRound.sol. A revert is `none`. A sum of two `uint64` times
-- reverts when it does not fit. The oracle is a parameter: `reads` is whether it names a price at
-- the close, and the price.
pub mod Payout
pub mod Custody
use ghoststake.Prelude.{
  ℕ, ◌+◌, ◌-◌, ◌*◌, ◌/◌, ◌^◌, Bool, false, ◌||◌, ◌&&◌, not, Option, some, ltb, leb, ◌==◌,
  if◌then◌else◌,
}
use ghoststake.Rounds.{Status, Phase, Round, Side, is_opened, is_locked, side_pool, wad}

abbrev pub u64_mod : ℕ
u64_mod = 2 ^ 64

-- `a + b` on `uint64`, checked; `then` is what follows.
abbrev checked_add {ℓ} : {A : Type ℓ} → ℕ → ℕ → (ℕ → Option A) → Option A
checked_add a b k = if ltb (a + b) u64_mod then k (a + b) else Option.none

unfoldable pub lock_round : Round → ℕ → ℕ → ℕ → Option Status
lock_round round min_side_pool lock_window now =
    if not (is_opened round.status)
    then Option.none
    else if ltb now round.lock_time
    then Option.none
    else if ltb round.up_pool min_side_pool || ltb round.down_pool min_side_pool
    then some Status.void
    else checked_add round.lock_time lock_window
        (λ ends. some (if ltb ends now then Status.void else Status.locked))

-- The status after a settlement, and the winner if there is one. The sum of the two pools, which
-- reverts past 2^256, is checked where the pools are settled, in `settle_round` of Custody.
unfoldable pub resolve_round : Round → Option ℕ → ℕ → Option (Status × Option Side)
resolve_round round reads now =
    if not (is_locked round.status)
    then Option.none
    else if ltb now round.close_time
    then Option.none
    else elim reads [
      | Option.none ↦ Option.none
      | some price ↦
          if price == round.lock_price
          then some (Status.void, Option.none)
          else some
              (Status.resolved, some (if ltb round.lock_price price then Side.up else Side.down))
    ]

-- `by_owner` is whether the caller owns the market.
unfoldable pub void_unsettled_round : Round → ℕ → Bool → ℕ → Option Status
void_unsettled_round round resolve_deadline by_owner now =
    if not by_owner
    then Option.none
    else if not (is_locked round.status)
    then Option.none
    else checked_add round.close_time resolve_deadline
        (λ deadline. if leb now deadline then Option.none else some Status.void)

unfoldable pub void_unlocked_round : Round → ℕ → ℕ → Option Status
void_unlocked_round round lock_window now =
    if not (is_opened round.status)
    then Option.none
    else checked_add round.lock_time lock_window
        (λ deadline. if leb now deadline then Option.none else some Status.void)

-- `entryIsOpen`; the cutoff instant is `lockTime - entryCutoff`, which a listed round never
-- takes below zero.
abbrev entry_is_open : Round → ℕ → ℕ → Bool
entry_is_open round entry_cutoff now =
    is_opened round.status && leb round.open_time now && ltb (now + entry_cutoff) round.lock_time

abbrev phase_by_status : Status → Bool → Phase
phase_by_status Status.none entry = Phase.none
phase_by_status Status.resolved entry = Phase.resolved
phase_by_status Status.void entry = Phase.void
phase_by_status Status.locked entry = Phase.observation
phase_by_status Status.opened entry = if entry then Phase.opened else Phase.cutoff

unfoldable pub phase_of : Round → ℕ → ℕ → Phase
phase_of round entry_cutoff now =
    phase_by_status round.status (entry_is_open round entry_cutoff now)

-- The guards of `openRound` on a schedule and a strike.
unfoldable pub open_round_accepts : ℕ → ℕ → ℕ → ℕ → ℕ → ℕ → Bool
open_round_accepts open_time lock_time close_time strike_price entry_cutoff now =
    if ltb open_time now
    then false
    else if not (ltb (open_time + entry_cutoff) u64_mod)
    then false
    else if leb lock_time (open_time + entry_cutoff)
    then false
    else if leb close_time lock_time
    then false
    else not (strike_price == 0)

-- `oddsOf` and `claimableOf`. `pool - mulDiv(pool, rake, WAD)` does not revert, since a market's
-- rake is below one.
unfoldable pub odds_of : Round → Side → ℕ → ℕ
odds_of round side rake =
    let pool = round.up_pool + round.down_pool in
    if side_pool round side == 0
    then 0
    else ((pool - (pool * rake) / wad) * wad) / side_pool round side

pub record Stake : Type 0 where
  pub up : ℕ
  pub down : ℕ
  pub claimed : Bool

abbrev pub stake_on : Stake → Side → ℕ
stake_on s Side.up = s.up
stake_on s Side.down = s.down

abbrev claimable_by_status : Status → ℕ → ℕ → ℕ
claimable_by_status Status.void refund payout = refund
claimable_by_status Status.resolved refund payout = payout
claimable_by_status _ refund payout = 0

-- `winner` is the round's winning side, read once it is resolved.
unfoldable pub claimable_of : Round → Side → Stake → ℕ
claimable_of round winner s =
    if s.claimed
    then 0
    else claimable_by_status round.status (s.up + s.down) (
        if stake_on s winner == 0
        then 0
        else ((round.up_pool + round.down_pool - round.rake_taken) * stake_on s winner)
          / side_pool round winner)
