-- ===== src/Card/Countdown.antt =====
-- The clock of an open round and the phases of the contract.
use ghoststake.Prelude.{ℕ, ◌+◌, ◌-◌, ◌≡◌, ◌<◌, some, arith, ◌↔◌}
use ghoststake.Prelude.Int.{pos, ◌-ℤ◌, sub_ℕ, int_laws}
use ghoststake.Rounds.{Phase, entry_closes_at, format_countdown}
use ghoststake.Market.{phase_of}
use ghoststake.Card.{CardProps, Clock, entry_closes, clock_of, remaining, deadline_of}

abbrev pub counting : ℕ → Clock
counting left = record {
  until = entry_closes;
  seconds = pos left;
  text = format_countdown (pos left);
}

left_is :
    (lock cutoff now : ℕ)
    → now + cutoff < lock
    → (sub_ℕ lock cutoff -ℤ pos now) ≡ pos (lock - cutoff - now)
left_is lock cutoff now h = grind (arith, int_laws)

-- While the contract reports the round as open, the card's clock counts the seconds through which
-- it stays open: at a time from now on the round is open exactly while the count is not over.
pub clock_of-opened :
    (props : CardProps) (now n : ℕ)
    → props.now ≡ some now
    → props.phase ≡ Phase.opened
    → phase_of props.round props.entry_cutoff now ≡ Phase.opened
    → (left : ℕ) × (clock_of props ≡ some (counting left))
      × ((phase_of props.round props.entry_cutoff (now + n) ≡ Phase.opened) ↔ (n < left))
unfolding clock_of remaining deadline_of phase_of entry_closes_at
clock_of-opened props now n at opened live =
    let left = props.round.lock_time - props.entry_cutoff - now in
    let e = left_is props.round.lock_time props.entry_cutoff now (ground arith) in
    (
      left,
      rw (at, opened)
          (λ i.
            some (record { until = entry_closes; seconds = e i; text = format_countdown (e i) })),
      ground arith,
    )
