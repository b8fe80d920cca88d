-- ===== src/StockLoan/Borrow.antt =====
-- The most that can be borrowed.
use native.Mathlib.Nat.{le_refl, zero-div}
use native.Mathlib.Decide.{dec_le}
use ghoststake.Prelude.{
  ℕ, zero, suc, ◌+◌, ◌-◌, ◌*◌, ◌/◌, ◌≤◌, ◌<◌, ◌≡◌, refl, ◌↔◌, arith, div-mul-le, lt-div_suc-mul,
  le-div_of_mul, div-le_of_lt, mul_mono,
}
use ghoststake.Rounds.{wad}
use ghoststake.StockLoan.{origination_fee_on, trim, max_borrow}

-- The fee is the exact one rounded up: it fits in `k` exactly when the exact fee does.
origination_fee_on-le_iff : (y fee k : ℕ) → (origination_fee_on y fee ≤ k) ↔ (y * fee ≤ k * wad)
unfolding origination_fee_on
origination_fee_on-le_iff y fee k = (
  (λ h.
      let p : y * fee + wad - 1 < ((y * fee + wad - 1) / wad + 1) * wad =
        lt-div_suc-mul (y * fee + wad - 1) wad (omega arith) in
      omega arith),
  (λ h. div-le_of_lt k (y * fee + wad - 1) wad (omega arith) (omega arith)),
)

-- The estimate already fits, so the loop makes no round.
estimate_fits :
    (room fee x : ℕ) → x ≤ (room * wad) / (wad + fee) → x + origination_fee_on x fee ≤ room
estimate_fits room fee x h =
    let a : x * (wad + fee) ≤ (room * wad) / (wad + fee) * (wad + fee) =
      mul_mono x ((room * wad) / (wad + fee)) (wad + fee) h in
    let b = div-mul-le (room * wad) (wad + fee) in
    let c : x ≤ room = omega arith in
    let d : origination_fee_on x fee ≤ room - x =
      (origination_fee_on-le_iff x fee (room - x)).1 (omega arith) in
    omega arith

fits_estimate :
    (room fee x : ℕ) → x + origination_fee_on x fee ≤ room → x ≤ (room * wad) / (wad + fee)
fits_estimate room fee x h =
    let a : x * fee ≤ (room - x) * wad =
      (origination_fee_on-le_iff x fee (room - x)).0 (omega arith) in
    le-div_of_mul x (room * wad) (wad + fee) (omega arith) (omega arith)

trim_of_fits : (room fee x : ℕ) → x + origination_fee_on x fee ≤ room → trim room fee x ≡ x
unfolding trim
trim_of_fits room fee zero h = refl
trim_of_fits room fee (suc x) h = ground arith

-- The offered maximum is the floor estimate: the loop after the estimate never takes a unit off.
pub max_borrow_closed :
    (limit debt fee : ℕ) → max_borrow limit debt fee ≡ ((limit - debt) * wad) / (wad + fee)
unfolding max_borrow
max_borrow_closed limit debt fee =
    let room = limit - debt in
    let x = (room * wad) / (wad + fee) in
    let fits = trim_of_fits room fee x (estimate_fits room fee x (le_refl x)) in
    elim (dec_le limit debt) [
      | yes p ↦ let room_0 : limit - debt ≡ 0 = omega arith in ground (arith, zero-div (wad + fee))
      | no p ↦ ground arith
    ]

-- A positive amount can be borrowed within the limit, its fee included, exactly when it is at
-- most the offered maximum.
pub max_borrow_iff :
    (limit debt fee y : ℕ)
    → 0 < y
    → (debt + y + origination_fee_on y fee ≤ limit) ↔ (y ≤ max_borrow limit debt fee)
max_borrow_iff limit debt fee y h = (
  (λ p. rw max_borrow_closed (fits_estimate (limit - debt) fee y (omega arith))),
  (λ p. let q = estimate_fits (limit - debt) fee y (rw max_borrow_closed at p) in omega arith),
)
