-- ===== src/Market/Payout.antt =====
-- The multiple on the card against the contract's payout.
use native.Mathlib.Nat.{div-le_of_le-mul, le_of_mul-le-mul_right}
use ghoststake.Prelude.{
  ℕ, ◌+◌, ◌-◌, ◌*◌, ◌/◌, ◌≤◌, ◌<◌, ◌≡◌, Option, some, false, arith, if◌then◌else◌, ◌==◌, div-mul-le,
  mul_mono, le-div_of_mul,
}
use ghoststake.Prelude.Int.{pos, scale, tdiv}
use ghoststake.Rounds.{Round, Side, Status, side_pool, wad, multiple_for}
use ghoststake.Market.{odds_of, Stake, stake_on, claimable_of}

pub rake-le : (total rake : ℕ) → rake ≤ wad → (total * rake) / wad ≤ total
rake-le total rake h =
    let p : rake * total ≤ wad * total = mul_mono rake wad total h in
    div-le_of_le-mul wad (omega arith)

-- The card quotes what the contract quotes, and nothing where the contract answers 0 for an empty
-- side, for any rake up to one.
multiple_for-eq-odds_of :
    (r : Round) (side : Side) (rake : ℕ)
    → rake ≤ wad
    → multiple_for r side rake
      ≡ (if side_pool r side == 0 then Option.none else some (pos (odds_of r side rake)))
unfolding multiple_for odds_of tdiv scale
multiple_for-eq-odds_of r side rake h = ground (arith, rake-le (r.up_pool + r.down_pool) rake h)

-- A quote cut to units and then applied to a stake is at most the stake's exact share, cut once.
quote_floor :
    (stake dist m pool : ℕ)
    → 0 < pool
    → m * pool ≤ dist * wad
    → (stake * m) / wad ≤ (dist * stake) / pool
quote_floor stake dist m pool staked h =
    let q = (stake * m) / wad in
    let a : q * wad * pool ≤ stake * m * pool =
      mul_mono (q * wad) (stake * m) pool (div-mul-le (stake * m) wad) in
    let b : m * pool * stake ≤ dist * wad * stake = mul_mono (m * pool) (dist * wad) stake h in
    let c : q * pool * wad ≤ dist * stake * wad = omega arith in
    le-div_of_mul q (dist * stake) pool staked (le_of_mul-le-mul_right c (omega arith))

-- Once a round settles on the quoted pools and rake, which is at most one, a stake on the winning
-- side that is not claimed collects at least the product, rounded down, of the stake and the multiple
-- that multipleFor gives its side, with all of its eighteen decimals.
pub quote-le-payout :
    (r : Round) (side : Side) (s : Stake) (rake m : ℕ)
    → rake ≤ wad
    → r.status ≡ Status.resolved
    → r.rake_taken ≡ ((r.up_pool + r.down_pool) * rake) / wad
    → s.claimed ≡ false
    → multiple_for r side rake ≡ some (pos m)
    → (stake_on s side * m) / wad ≤ claimable_of r side s
unfolding claimable_of odds_of
quote-le-payout r side s rake m h st rk cl e =
    let quoted = multiple_for-eq-odds_of r side rake h in
    let staked : 0 < side_pool r side = ground arith in
    let dist = r.up_pool + r.down_pool - r.rake_taken in
    let same : m ≡ (dist * wad) / side_pool r side = ground arith in
    let fits : m * side_pool r side ≤ dist * wad =
      rw same (div-mul-le (dist * wad) (side_pool r side)) in
    let main = quote_floor (stake_on s side) dist m (side_pool r side) staked fits in ground arith
