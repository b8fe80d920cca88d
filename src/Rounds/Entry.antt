-- ===== src/Rounds/Entry.antt =====
-- When a stake is accepted.
use ghoststake.Prelude.{ℕ, ◌≤◌, ◌≡◌, ◌↔◌, true, arith}
use ghoststake.Prelude.Int.{pos, ◌<ℤ◌}
use ghoststake.Rounds.{Round, Status, entry_open, entry_closes_at}

-- The button is live exactly while the round is open, has started, and the instant at which the
-- countdown ends is still ahead.
pub entry_open_iff :
    (r : Round) (cutoff now : ℕ)
    → (entry_open r cutoff now ≡ true)
      ↔ ((r.status ≡ Status.opened) × (r.open_time ≤ now) × (pos now <ℤ entry_closes_at r cutoff))
unfolding entry_open entry_closes_at
entry_open_iff r cutoff now = ground arith
