-- ===== src/Rounds/Shares.antt =====
-- The split of the pool, and what a side pays.
use ghoststake.Prelude.{
  ℕ, ◌+◌, ◌-◌, ◌*◌, ◌/◌, ◌≤◌, ◌<◌, ◌≡◌, some, arith, div-mul-le, lt-div_suc-mul, mul_mono,
}
use native.Mathlib.Decide.{dec_le}
use ghoststake.Rounds.{Round, Percents, up_share, side_percents}

-- A rounding of a rounding: `t` tenths of a percent cut down, then rounded to whole percents.
tenths_close :
    (u total t p : ℕ)
    → t * total ≤ u * 1000
    → u * 1000 < (t + 1) * total
    → p * 10 ≤ t + 5
    → t + 5 < p * 10 + 10
    → (2 * p * total ≤ 200 * u + total) × (200 * u < 2 * p * total + total)
tenths_close u total t p h k low high =
    let a : p * 10 * total ≤ (t + 5) * total = mul_mono (p * 10) (t + 5) total low in
    let b : (t + 5) * total ≤ (p * 10 + 9) * total =
      mul_mono (t + 5) (p * 10 + 9) total (omega arith) in
    (omega arith, omega arith)

percent_le : (u d t : ℕ) → 0 < u + d → t * (u + d) ≤ u * 1000 → t ≤ 1000
percent_le u d t pos h = elim (dec_le t 1000) [
  | yes p ↦ p
  | no p ↦
      let big : 1001 * (u + d) ≤ t * (u + d) = mul_mono 1001 t (u + d) (omega arith) in
      absurd (omega arith)
]

-- Each percentage is within half a point of the side's exact share, though it is rounded twice,
-- and the two add up to 100.
pub side_percents_close :
    (r : Round) (p : Percents)
    → side_percents r ≡ some p
    → (p.up + p.down ≡ 100)
      × (2 * p.up * (r.up_pool + r.down_pool) ≤ 200 * r.up_pool + (r.up_pool + r.down_pool))
      × (200 * r.up_pool < 2 * p.up * (r.up_pool + r.down_pool) + (r.up_pool + r.down_pool))
unfolding side_percents up_share
side_percents_close r p h =
    let total = r.up_pool + r.down_pool in
    let t = (r.up_pool * 1000) / total in
    let staked : 0 < total = ground arith in
    let low = div-mul-le (r.up_pool * 1000) total in
    let high = lt-div_suc-mul (r.up_pool * 1000) total staked in
    let bound = percent_le r.up_pool r.down_pool t staked low in
    let close =
      tenths_close r.up_pool total t ((t + 5) / 10) low high (omega arith) (omega arith) in
    let up : p.up ≡ (t + 5) / 10 = ground arith in
    let down : p.down ≡ 100 - (t + 5) / 10 = ground arith in
    rw (up, down) (omega arith, close.0, close.1)
