-- ===== src/AtRisk/Screen.antt =====
-- The liquidator's screen (ghoststake-frontend/src/app/(app)/liquidate/page.tsx): which body it has,
-- what a row quotes, what its last cell offers and what the buttons send.
use ghoststake.Prelude.{ℕ, ◌-◌, ◌^◌, Bool, false, Option, none, some, List, [], ◌∷◌, if◌then◌else◌}
use ghoststake.Prelude.Int.{pos, ltb_ℤ, nat_abs}
use ghoststake.Text.{Text}
use ghoststake.AtRisk.{
  AtRiskPosition, Action, liquidate, write_off, watch, risk_action, net_to_liquidator,
}

pub record Roster : Type 0 where
  pub is_error : Bool
  pub is_loading : Bool
  pub positions : List AtRiskPosition

pub data Body : Type 0 where
  not_configured unreadable reading empty : Body
  table : List AtRiskPosition → Body

abbrev pub listed : List AtRiskPosition → Body
listed [] = empty
listed (p ∷ ps) = table (p ∷ ps)

unfoldable pub body_of : Option Text → Roster → Body
body_of none roster = not_configured
body_of (some vault) roster =
    if roster.is_error
    then unreadable
    else if roster.is_loading
    then reading
    else listed roster.positions

-- The figures of a liquidation; `is_gain` is the sign before the net, which is written without one.
pub record Quote : Type 0 where
  pub repay : ℕ
  pub receive : ℕ
  pub is_gain : Bool
  pub net : ℕ

unfoldable pub quote_of : AtRiskPosition → Option Quote
quote_of position = elim (risk_action position) [
  | liquidate ↦
      let net = net_to_liquidator position in
      some (record {
        repay = position.max_repay;
        receive = position.seized;
        is_gain = ltb_ℤ (pos 0) net;
        net = nat_abs net;
      })
  | write_off ↦ none
  | watch ↦ none
]

-- What the last cell of a row shows; a button has whether it is disabled.
pub data Cell : Type 0 where
  underwater_loses healthy connect_to_write_off : Cell
  write_off_button : (is_disabled : Bool) → Cell
  connect_to_liquidate : (clears_whole : Bool) → Cell
  liquidate_button : (is_disabled clears_whole : Bool) (need : ℕ) → Cell

unfoldable pub action_cell : AtRiskPosition → Action → (connected busy : Bool) → Cell
action_cell position watch connected busy =
    if position.is_liquidatable then underwater_loses else healthy
action_cell position write_off connected busy =
    if connected then write_off_button busy else connect_to_write_off
action_cell position liquidate connected busy =
    if connected
    then liquidate_button busy position.full_liquidation position.max_repay
    else connect_to_liquidate position.full_liquidation

pub data Sent : Type 0 where
  send_write_off : (vault user : Text) → Sent
  send_liquidate : (vault user : Text) (amount : ℕ) → Sent

-- What a row's button sends: the amount is the sentinel, and not the quote.
unfoldable pub sent_by : Text → AtRiskPosition → Cell → Option Sent
sent_by vault position (write_off_button false) = some (send_write_off vault position.address)
sent_by vault position (liquidate_button false whole need) =
    some (send_liquidate vault position.address (2 ^ 256 - 1))
sent_by vault position _ = none
