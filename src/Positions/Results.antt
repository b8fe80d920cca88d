-- ===== src/Positions/Results.antt =====
-- A position's outcome and its net result against what the contract pays.
use ghoststake.Prelude.{ℕ, ◌+◌, ◌<◌, ◌≡◌, true, false, Option, some, arith}
use ghoststake.Prelude.Int.{pos, sub_ℕ, neg_ℕ}
use ghoststake.Rounds.{Round, Side, Status}
use ghoststake.Market.{Stake, stake_on, claimable_of}
use ghoststake.Positions.{RoundStatus, Winner, Position, Outcome, won, lost, outcome_of, net_of}

abbrev pub status_name : Status → RoundStatus
status_name Status.none = RoundStatus.other
status_name Status.opened = RoundStatus.opened
status_name Status.locked = RoundStatus.locked
status_name Status.resolved = RoundStatus.resolved
status_name Status.void = RoundStatus.void

abbrev pub side_name : Side → Winner
side_name Side.up = Winner.up
side_name Side.down = Winner.down

-- What the contract owes on a stake before anything is claimed.
abbrev pub owed : Round → Side → Stake → ℕ
owed round winner s = claimable_of round winner (record s { claimed = false })

-- The API's answer on a stake that the contract holds.
pub record IsReport (p : Position) (round : Round) (winner : Side) (s : Stake) : Type 0 where
  pub status : p.round.status ≡ status_name round.status
  pub winner_name : p.round.winner ≡ side_name winner
  pub up_stake : p.up_stake ≡ s.up
  pub down_stake : p.down_stake ≡ s.down
  pub total_stake : p.total_stake ≡ s.up + s.down
  pub claimed : p.claimed ≡ s.claimed
  pub claimable : p.claimable ≡ claimable_of round winner s
  pub paid : s.claimed ≡ true → p.claimed_amount ≡ owed round winner s

-- On a position that the API reports as the contract has it, claimed or not: a void round nets
-- zero; a resolved one is won exactly when the account staked on the winner, and nets what the
-- contract owes less the stakes, which on a loss is the stakes; an open or a locked round has no
-- result.
pub net_of_settled :
    (p : Position) (round : Round) (winner : Side) (s : Stake)
    → IsReport p round winner s
    → (round.status ≡ Status.void → (outcome_of p ≡ Outcome.void) × (net_of p ≡ some (pos 0)))
      × (round.status ≡ Status.resolved
          → 0 < stake_on s winner
          → (outcome_of p ≡ won) × (net_of p ≡ some (sub_ℕ (owed round winner s) (s.up + s.down))))
      × (round.status ≡ Status.resolved
          → stake_on s winner ≡ 0
          → (outcome_of p ≡ lost) × (net_of p ≡ some (neg_ℕ (s.up + s.down))))
      × (round.status ≡ Status.opened → net_of p ≡ Option.none)
      × (round.status ≡ Status.locked → net_of p ≡ Option.none)
unfolding outcome_of net_of claimable_of
net_of_settled p round winner s r =
    let a = r.status in
    let b = r.winner_name in
    let c = r.up_stake in
    let d = r.down_stake in
    let t = r.total_stake in
    let e = r.claimed in let f = r.claimable in let g = r.paid in ground arith
