-- ===== src/Examples/Rounds.antt =====
-- Rounds, their operator, and what they pay.

use ghoststake.Prelude.{
  ℕ, ◌+◌, ◌*◌, ◌/◌, ◌≤◌, ◌<◌, ◌≡◌, ◌≢◌, ◌↔◌, ◌⊎◌, refl, true, false, not, is_some, [], ◌∷◌, Option,
  some, arith, ◌||◌, ◌==◌, if◌then◌else◌, ltb,
}
use ghoststake.Prelude.Int.{pos, sub_ℕ, neg_ℕ, tdiv, scale}
use ghoststake.Text.{codes, to_string}
use ghoststake.Rounds.{wad, Status, Side, Round, multiple_for}
use ghoststake.Market.{Stake, resolve_round, phase_of, claimable_of, stake_on}
use ghoststake.Market.Payout.{quote-le-payout}
use ghoststake.Operator.{Timing, is_owner_only, action_for, Schedule, schedule_problem}
use ghoststake.Operator.Actions.{Accepts, action_for-Accepts}
use ghoststake.Operator.CloseRound.{IsFeed}
use ghoststake.Operator.Scheduling.{open_round-schedule_problem}
use ghoststake.Market.Custody.{Terms, Context}
use ghoststake.Market.Custody.Contract.{open_round, opened_book, apply_call, deployed}
use ghoststake.Positions.{Position, Outcome, RoundStatus, Winner, won, lost, outcome_of, net_of}
use ghoststake.Positions.Results.{IsReport, owed, net_of_settled}
use ghoststake.Spot.{standing_of, strike_for, strike_step}
use ghoststake.Spot.Leader.{standing_of-resolve_round}
use ghoststake.Spot.Strike.{strike_for_lem}

abbrev round_with : Status → Round
round_with status = record {
  open_time = 100;
  lock_time = 400;
  close_time = 700;
  status = status;
  winner = 0;
  lock_price = 2000;
  close_price = 0;
  lock_oracle_round_id = 0;
  up_pool = 300;
  down_pool = 100;
  rake_taken = 0;
}

abbrev rake : ℕ
rake = 20000000000000000

abbrev settled : Round
settled = record (round_with Status.resolved) { rake_taken = 8 }

abbrev winner_stake : Stake
winner_stake = record { up = 30; down = 0; claimed = false }

quote-le-payout_example :
    (30 * 1306666666666666666) / wad ≤ claimable_of settled Side.up winner_stake
unfolding multiple_for tdiv scale
quote-le-payout_example =
    quote-le-payout settled Side.up winner_stake rake 1306666666666666666 (omega arith) refl refl
      refl refl

abbrev timing : Timing
timing = record { entry_cutoff = 30; lock_window = 60; resolve_deadline = 90 }

action_for-Accepts_example :
    Accepts
      (action_for
        (round_with Status.opened)
        (phase_of (round_with Status.opened) 30 410)
        timing
        410)
      (round_with Status.opened)
      timing
      50
      410
      false
      (some 2100)
unfolding action_for phase_of is_owner_only
action_for-Accepts_example =
    action_for-Accepts (round_with Status.opened) timing 50 410 2100 false (omega arith)
      (omega arith) (λ e. e)

-- A feed with a round at each of the ids 1 to 9, ten seconds apart.
abbrev feed : ℕ → Option ℕ
feed id = if ltb 9 id || (id == 0) then Option.none else some (10 * id)

feed-IsFeed : IsFeed feed 55 9
feed-IsFeed = record {
  floor = refl;
  ceiling = λ id h. ground arith;
  ordered = λ i j h k e. ground arith;
}

abbrev schedule : Schedule
schedule = record { open_time = 100; lock_time = 400; close_time = 700 }

abbrev opener : Context
opener = record { sender = 7; by_owner = true; entries_open = true; now = 90 }

abbrev console_terms : Terms
console_terms = record {
  rake = rake;
  entry_cutoff = 30;
  lock_window = 60;
  resolve_deadline = 90;
  min_side_pool = 50;
}

open_round-schedule_problem_example :
    apply_call console_terms opener deployed (open_round 100 400 700 2000) ≡ (
      if not (is_some (schedule_problem schedule 30 90))
      then some (record deployed { books = opened_book 100 400 700 2000 ∷ [] })
      else Option.none)
open_round-schedule_problem_example =
    open_round-schedule_problem console_terms opener deployed schedule 2000 (omega arith)
      (omega arith)

abbrev position : Position
position = record {
  round = record {
    market = codes "0xA1";
    id = 4;
    status = RoundStatus.resolved;
    phase = codes "resolved";
    is_entry_open = false;
    open_time = codes "2026-09-19T14:00:00Z";
    lock_time = codes "2026-09-19T14:05:00Z";
    close_time = codes "2026-09-19T14:10:00Z";
    up_pool = 300;
    down_pool = 100;
    total_pool = 400;
    up_odds = codes "1306666666666666666";
    down_odds = codes "3920000000000000000";
    lock_price = some (codes "2000");
    close_price = some (codes "2100");
    winner = Winner.up;
    rake_taken = some 8;
    void_reason = Option.none;
    question = Option.none;
    last_block = 12;
  };
  up_stake = 30;
  down_stake = 0;
  total_stake = 30;
  claimable = 39;
  claimed = false;
  claimed_amount = 0;
  is_leveraged = false;
  opened_at = codes "2026-09-19T14:01:00Z";
}

position-IsReport : IsReport position settled Side.up winner_stake
unfolding claimable_of
position-IsReport = record {
  status = refl;
  winner_name = refl;
  up_stake = refl;
  down_stake = refl;
  total_stake = refl;
  claimed = refl;
  claimable = refl;
  paid = λ e. cc;
}

net_of_settled_example :
    (Status.resolved ≡ Status.void
      → (outcome_of position ≡ Outcome.void) × (net_of position ≡ some (pos 0)))
    × (Status.resolved ≡ Status.resolved
        → 0 < 30
        → (outcome_of position ≡ won)
          × (net_of position ≡ some (sub_ℕ (owed settled Side.up winner_stake) (30 + 0))))
    × (Status.resolved ≡ Status.resolved
        → stake_on winner_stake Side.up ≡ 0
        → (outcome_of position ≡ lost) × (net_of position ≡ some (neg_ℕ (30 + 0))))
    × (Status.resolved ≡ Status.opened → net_of position ≡ Option.none)
    × (Status.resolved ≡ Status.locked → net_of position ≡ Option.none)
net_of_settled_example = net_of_settled position settled Side.up winner_stake position-IsReport

abbrev price : ℕ
price = 2100

standing_of-resolve_round_example :
    ((resolve_round (round_with Status.locked) (some 2100) 700
        ≡ some (Status.resolved, some Side.up))
      ↔ (((standing_of (some 2100) (some 2000)).leading ≡ some Side.up) × (price ≢ 2000)))
    × (price ≡ 2000
        → ((standing_of (some 2100) (some 2000)).leading ≡ some Side.down)
          × (resolve_round (round_with Status.locked) (some 2100) 700
              ≡ some (Status.void, Option.none)))
standing_of-resolve_round_example =
    standing_of-resolve_round (round_with Status.locked) 2100 700 Side.up refl (omega arith)
      (omega arith) (omega arith)

-- On the strike, Down is shown as leading and the contract voids.
tie_shown : (standing_of (some 2000) (some 2000)).leading ≡ some Side.down
unfolding standing_of
tie_shown = refl

tie_voids :
    resolve_round (round_with Status.locked) (some 2000) 700 ≡ some (Status.void, Option.none)
unfolding resolve_round
tie_voids = refl

strike_for_lem_example :
    (k : ℕ) × (strike_for (some 2688903417200000000000)
      ≡ some (k * strike_step 2688903417200000000000))
    × (0 < k)
    × (((k * strike_step 2688903417200000000000
            ≤ 2688903417200000000000 + strike_step 2688903417200000000000 / 2)
          × (2688903417200000000000
              ≤ k * strike_step 2688903417200000000000 + strike_step 2688903417200000000000 / 2))
        ⊎ ((k ≡ 1)
            × (2688903417200000000000 + strike_step 2688903417200000000000 / 2
                < strike_step 2688903417200000000000)))
strike_for_lem_example = strike_for_lem 2688903417200000000000 (omega arith)

said_aloud : strike_for (some 2688903417200000000000) ≡ some 2690000000000000000000
unfolding strike_for strike_step to_string
said_aloud = refl
