-- ===== src/AtRisk.antt =====
-- What a liquidator is asked to do about a position (ghoststake-frontend/src/lib/atRisk.ts). A wire
-- amount is the number that its decimal string writes.
pub mod Screen
use ghoststake.Prelude.{ℕ, Bool, ◌&&◌, if◌then◌else◌}
use ghoststake.Prelude.Int.{ℤ, sub_ℕ}
use ghoststake.Text.{Text}

pub data Band : Type 0 where
  none safe caution danger other : Band

pub record AtRiskPosition : Type 0 where
  pub address : Text
  pub collateral : ℕ
  pub debt : ℕ
  pub health_factor : ℕ
  pub ltv : ℕ
  pub band : Band
  pub is_liquidatable : Bool
  pub max_repay : ℕ
  pub seized : ℕ
  pub bonus : ℕ
  pub is_profitable : Bool
  pub full_liquidation : Bool
  pub write_off_candidate : Bool

pub data Action : Type 0 where
  liquidate write_off watch : Action

unfoldable pub risk_action : AtRiskPosition → Action
risk_action position =
    if position.write_off_candidate
    then write_off
    else if position.is_liquidatable && position.is_profitable
    then liquidate
    else watch

unfoldable pub net_to_liquidator : AtRiskPosition → ℤ
net_to_liquidator position = sub_ℕ position.seized position.max_repay
