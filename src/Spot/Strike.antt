-- ===== src/Spot/Strike.antt =====
-- The level that a new round asks about.
use ghoststake.Prelude.{
  ℕ, ◌+◌, ◌*◌, ◌/◌, ◌≤◌, ◌<◌, ◌≡◌, ◌⊎◌, inl, inr, some, arith, div-mul-le, lt-div_suc-mul, pow-pos,
  refl, Bool-cases, leb, ◌==◌, if◌then◌else◌, length,
}
use ghoststake.Rounds.{wad}
use ghoststake.Text.{to_string}
use ghoststake.Spot.{strike_for, strike_step}

strike_step-pos : (spot : ℕ) → 0 < strike_step spot
unfolding strike_step
strike_step-pos spot =
    let whole = spot / wad in
    pow-pos (
      if leb (15 + (if whole == 0 then 0 else length (to_string whole))) 16
      then 16
      else 15 + (if whole == 0 then 0 else length (to_string whole)))

-- The strike for a positive price is a positive whole number of steps, within half a step of the
-- price, or one step where the price is below half a step.
pub strike_for_lem :
    (spot : ℕ)
    → 0 < spot
    → (k : ℕ) × (strike_for (some spot) ≡ some (k * strike_step spot))
      × (0 < k)
      × (((k * strike_step spot ≤ spot + strike_step spot / 2)
            × (spot ≤ k * strike_step spot + strike_step spot / 2))
          ⊎ ((k ≡ 1) × (spot + strike_step spot / 2 < strike_step spot)))
unfolding strike_for
strike_for_lem spot h =
    let step = strike_step spot in
    let pos = strike_step-pos spot in
    let k = (spot + step / 2) / step in
    let below = div-mul-le (spot + step / 2) step in
    let above = lt-div_suc-mul (spot + step / 2) step pos in
    let half = lt-div_suc-mul step 2 (omega arith) in
    let half_le = div-mul-le step 2 in
    elim (Bool-cases (k * step == 0)) [
      | inl z ↦ (1, ground arith, omega arith, inr (refl, ground arith))
      | inr nz ↦ (k, ground arith, ground arith, inl (below, ground arith))
    ]
