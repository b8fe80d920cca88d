-- ===== src/Stake.antt =====
-- What the vault's ledger credits against what it can pay (ghoststake-frontend/src/lib/stake.ts),
-- and the margin for interest that is not accrued (ghoststake-frontend/src/lib/accrual.ts).
pub mod Laws
use ghoststake.Prelude.{ℕ, ◌+◌, ◌-◌, ◌/◌, ◌^◌, Bool, Option, none, some, ltb, if◌then◌else◌}

pub record StakeStanding : Type 0 where
  pub redeemable : ℕ
  pub ledger : ℕ
  pub unbacked : ℕ
  pub backed : Bool

-- `fractionDigits` is 4 wherever the code calls it.
unfoldable pub dust_floor : ℕ → ℕ → ℕ
dust_floor decimals fraction_digits =
    if ltb fraction_digits decimals then 10 ^ (decimals - fraction_digits) else 1

unfoldable pub stake_standing : Option ℕ → Option ℕ → Option ℕ → Option StakeStanding
stake_standing (some ledger) (some redeemable) (some decimals) =
    let shortfall = if ltb redeemable ledger then ledger - redeemable else 0 in
    some (record {
      redeemable = redeemable;
      ledger = ledger;
      unbacked = shortfall;
      backed = ltb shortfall (dust_floor decimals 4);
    })
stake_standing (some ledger) (some redeemable) none = none
stake_standing (some ledger) none decimals = none
stake_standing none redeemable decimals = none

unfoldable pub accrual_margin : ℕ → ℕ
accrual_margin debt = if ltb 0 debt then debt / 1000 + 1 else 0

unfoldable pub pay_off_amount : ℕ → ℕ → ℕ
unfolding accrual_margin
pay_off_amount debt wallet =
    let buffered = debt + accrual_margin debt in if ltb buffered wallet then buffered else wallet

unfoldable pub borrow_headroom : ℕ → ℕ → ℕ
unfolding accrual_margin
borrow_headroom ceiling debt =
    let margin = accrual_margin debt in if ltb margin ceiling then ceiling - margin else 0
