-- ===== src/Market/Custody/Sums.antt =====
-- Sums over the accounts of a round, and what a settled round can have to pay.
use native.Mathlib.Nat.{le_of_mul-le-mul_right}
use ghoststake.Prelude.{
  ℕ, ◌+◌, ◌-◌, ◌*◌, ◌≤◌, ◌<◌, ◌≡◌, refl, List, [], ◌∷◌, arith, ◌==◌, div-mul-le, Bool-cases, inl,
  inr,
}
use ghoststake.Rounds.{Status, Round, Side, side_pool}
use ghoststake.Market.{stake_on, claimable_of}
use ghoststake.Market.Custody.{Holding, Book, holding_of, put, stake_total, winner_of}

abbrev pub sum_of : (Holding → ℕ) → List Holding → ℕ
sum_of w [] = 0
sum_of w (h ∷ hs) = w h + sum_of w hs

-- An account without a holding weighs nothing.
abbrev pub IsWeight : (Holding → ℕ) → Type 0
IsWeight w = (user : ℕ) → w (holding_of user []) ≡ 0

pub sum_of-put :
    (w : Holding → ℕ) (new : Holding) (hs : List Holding)
    → IsWeight w
    → sum_of w (put new hs) + w (holding_of new.user hs) ≡ sum_of w hs + w new
unfolding put holding_of
sum_of-put w new [] z = omega (arith, z new.user)
sum_of-put w new (h ∷ hs) z = ground (arith, sum_of-put w new hs z)

pub sum_of-weaken :
    (v w : Holding → ℕ) (hs : List Holding)
    → ((h : Holding) → v h ≤ w h)
    → sum_of v hs ≤ sum_of w hs
sum_of-weaken v w [] h = omega arith
sum_of-weaken v w (x ∷ hs) h = omega (arith, h x, sum_of-weaken v w hs h)

pub sum_of-same :
    (v w : Holding → ℕ) (hs : List Holding)
    → ((h : Holding) → v h ≡ w h)
    → sum_of v hs ≡ sum_of w hs
sum_of-same v w [] h = refl
sum_of-same v w (x ∷ hs) h = omega (arith, h x, sum_of-same v w hs h)

pub sum_of-add :
    (v w : Holding → ℕ) (hs : List Holding) → sum_of (λ h. v h + w h) hs ≡ sum_of v hs + sum_of w hs
sum_of-add v w [] = omega arith
sum_of-add v w (x ∷ hs) = omega (arith, sum_of-add v w hs)

-- Weights that are a share of others, cut down, add up to at most the share of the sum.
pub sum_of-share :
    (v w : Holding → ℕ) (amount whole : ℕ) (hs : List Holding)
    → ((h : Holding) → v h * whole ≤ amount * w h)
    → sum_of v hs * whole ≤ amount * sum_of w hs
sum_of-share v w amount whole [] h = omega arith
sum_of-share v w amount whole (x ∷ hs) h = omega (arith, h x, sum_of-share v w amount whole hs h)

-- What a round may still have to pay on a holding: all of its stakes until the round ends, what can
-- be claimed after.
abbrev pub reserve_by : Status → ℕ → ℕ → ℕ
reserve_by Status.resolved stakes owed = owed
reserve_by Status.void stakes owed = owed
reserve_by _ stakes owed = stakes

unfoldable pub reserved : Round → Holding → ℕ
reserved r h = reserve_by r.status (stake_total h.stake) (claimable_of r (winner_of r) h.stake)

unfoldable pub owed : Book → ℕ
unfolding reserved
owed b = sum_of (reserved b.round) b.holdings

pub reserved-IsWeight : (r : Round) → IsWeight (reserved r)
unfolding reserved holding_of claimable_of
reserved-IsWeight r user = ground arith

-- The weight of the stakes on one side.
abbrev pub on_side : Side → Holding → ℕ
on_side side h = stake_on h.stake side

-- A payout times the winning pool is at most the stake times what is distributed.
payout-share :
    (r : Round) (side : Side) (h : Holding)
    → r.status ≡ Status.resolved
    → claimable_of r side h.stake * side_pool r side
      ≤ (r.up_pool + r.down_pool - r.rake_taken) * stake_on h.stake side
unfolding claimable_of
payout-share r side h e =
    let q =
      div-mul-le ((r.up_pool + r.down_pool - r.rake_taken) * stake_on h.stake side)
        (side_pool r side) in
    ground arith

payout_zero :
    (r : Round) (side : Side) (h : Holding)
    → r.status ≡ Status.resolved
    → stake_on h.stake side ≡ 0
    → claimable_of r side h.stake ≡ 0
unfolding claimable_of
payout_zero r side h e z = ground arith

sum_of-zero :
    (v w : Holding → ℕ) (hs : List Holding)
    → ((h : Holding) → w h ≡ 0 → v h ≡ 0)
    → sum_of w hs ≡ 0
    → sum_of v hs ≡ 0
sum_of-zero v w [] h e = refl
sum_of-zero v w (x ∷ hs) h e =
    let now : v x ≡ 0 = h x (omega arith) in omega (arith, sum_of-zero v w hs h)

-- Where the stakes on the winning side make up its pool, what can be claimed is at most the pools
-- less the rake.
pub payouts-le :
    (r : Round) (side : Side) (hs : List Holding)
    → r.status ≡ Status.resolved
    → side_pool r side ≡ sum_of (on_side side) hs
    → sum_of (λ h. claimable_of r side h.stake) hs ≤ r.up_pool + r.down_pool - r.rake_taken
payouts-le r side hs e p =
    let v : Holding → ℕ = λ h. claimable_of r side h.stake in
    let dist = r.up_pool + r.down_pool - r.rake_taken in
    elim (Bool-cases (side_pool r side == 0)) [
      | inl none_staked ↦
          let nothing =
            sum_of-zero v (on_side side) hs (λ h z. payout_zero r side h e z) (ground arith) in
          omega (arith, nothing)
      | inr staked ↦
          let staked_sum = sum_of (on_side side) hs in
          let some_staked : 0 < staked_sum = rw (← p) (ground arith) in
          let bound : sum_of v hs * staked_sum ≤ dist * staked_sum =
            sum_of-share v (on_side side) dist staked_sum hs
              (λ h. rw (← p) (payout-share r side h e)) in
          le_of_mul-le-mul_right bound some_staked
    ]
