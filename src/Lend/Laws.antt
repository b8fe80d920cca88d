-- ===== src/Lend/Laws.antt =====
-- What the lending screen may offer, and how its preview moves.
use native.Mathlib.Nat.{div-le_of_le-mul, mul-le-mul_left}
use ghoststake.Prelude.{
  ℕ, ◌+◌, ◌*◌, ◌/◌, ◌≤◌, ◌<◌, ◌≡◌, ◌↔◌, Bool, true, false, none, arith, any, mul_mono, div-mul-le,
  le-div_of_mul,
}
use ghoststake.Prelude.Int.{ℤ, pos, ◌+ℤ◌, ◌≤ℤ◌, pos_part}
use ghoststake.Rounds.{wad}
use ghoststake.Lend.{
  max_withdraw, withdraw_problem, utilization_after, lend_warnings, LendWarning, past_kink,
}

-- The Max button offers the largest amount that has no problem: an amount can be submitted if and
-- only if it is at most that.
pub withdraw_problem_iff :
    (amount balance available : ℕ)
    → (withdraw_problem amount balance available ≡ none) ↔ (amount ≤ max_withdraw balance available)
unfolding withdraw_problem max_withdraw
withdraw_problem_iff amount balance available = ground arith

abbrev pub is_exit : LendWarning → Bool
is_exit past_kink = false
is_exit _ = true

-- A lender is warned about the exit exactly when the whole balance cannot be withdrawn.
pub lend_warnings_iff :
    (balance available utilization kink : ℕ)
    → (any is_exit (lend_warnings balance available utilization kink) ≡ true)
      ↔ (max_withdraw balance available < balance)
unfolding lend_warnings max_withdraw
lend_warnings_iff balance available utilization kink = ground arith

quotient_le_wad : (b d : ℕ) → b ≤ d → (b * wad) / d ≤ wad
quotient_le_wad b d h = let p : b * wad ≤ d * wad = mul_mono b d wad h in div-le_of_le-mul d p

quotient_anti : (b d e : ℕ) → 0 < d → d ≤ e → (b * wad) / e ≤ (b * wad) / d
quotient_anti b d e staked h =
    let q = (b * wad) / e in
    let p : q * d ≤ q * e = mul-le-mul_left q h in
    le-div_of_mul q (b * wad) d staked (omega (arith, div-mul-le (b * wad) e))

cash_mono :
    (available : ℕ) (delta more : ℤ) (borrowed : ℕ)
    → delta ≤ℤ more
    → pos_part (pos available +ℤ delta) + borrowed ≤ pos_part (pos available +ℤ more) + borrowed
unfolding ◌+ℤ◌
cash_mono available delta more borrowed h = ground arith

-- The previewed utilization is at most one, and adding cash never raises it: a larger deposit, or
-- a smaller withdrawal, shows a utilization that is no higher.
pub utilization_after_anti :
    (borrowed available : ℕ) (delta more : ℤ)
    → delta ≤ℤ more
    → (utilization_after borrowed available delta ≤ wad)
      × (utilization_after borrowed available more ≤ utilization_after borrowed available delta)
unfolding utilization_after
utilization_after_anti borrowed available delta more h =
    let d = pos_part (pos available +ℤ delta) + borrowed in
    let e = pos_part (pos available +ℤ more) + borrowed in
    let le : d ≤ e = cash_mono available delta more borrowed h in
    ground (arith, quotient_le_wad borrowed d (omega arith), quotient_anti borrowed d e)
