-- ===== src/Spot/Leader.antt =====
-- The leader shown against the side that the contract pays, and the size of the move.
use ghoststake.Prelude.{ℕ, ◌+◌, ◌*◌, ◌≤◌, ◌<◌, ◌≡◌, ◌≢◌, ◌↔◌, none, some, arith}
use ghoststake.Rounds.{Round, Side, Status}
use ghoststake.Market.{resolve_round}
use ghoststake.Spot.{standing_of, Age, format_age, just_now, in_minutes, in_hours, in_hours_minutes}

-- On a locked round past its close, at a live price and a strike that are not zero, the contract
-- resolves for a side exactly when that side is shown as leading and the price is off the strike;
-- on the strike the contract voids the round and Down is shown as leading.
pub standing_of-resolve_round :
    (round : Round) (price now : ℕ) (side : Side)
    → round.status ≡ Status.locked
    → round.close_time ≤ now
    → 0 < price
    → 0 < round.lock_price
    → ((resolve_round round (some price) now ≡ some (Status.resolved, some side)) ↔ (
        ((standing_of (some price) (some round.lock_price)).leading ≡ some side)
        × (price ≢ round.lock_price)))
      × (price ≡ round.lock_price
          → ((standing_of (some price) (some round.lock_price)).leading ≡ some Side.down)
            × (resolve_round round (some price) now ≡ some (Status.void, none)))
unfolding resolve_round standing_of
standing_of-resolve_round round price now side locked late a b = ground arith

-- The number of minutes that an age in words says.
abbrev pub minutes_said : Age → ℕ
minutes_said just_now = 0
minutes_said (in_minutes m) = m
minutes_said (in_hours h) = h * 60
minutes_said (in_hours_minutes h m) = h * 60 + m

-- From ninety seconds on, an age in words is within half a minute of the age.
pub format_age_close :
    (seconds : ℕ)
    → 90 ≤ seconds
    → (minutes_said (format_age seconds) * 60 ≤ seconds + 30)
      × (seconds < minutes_said (format_age seconds) * 60 + 30)
unfolding format_age
format_age_close seconds late = ground arith
