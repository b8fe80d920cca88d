-- ===== src/Forms/Lend.antt =====
-- Supplying to the lending pool and withdrawing from it: `SupplyWithdraw` of
-- ghoststake-frontend/src/app/(app)/lend/page.tsx, and `LendPanel` of
-- ghoststake-frontend/src/app/(app)/stocks/page.tsx, which do the same on other reads.
use ghoststake.Prelude.{
  ℕ, Bool, true, false, ◌||◌, Option, none, some, List, [], ◌∷◌, ltb, ◌==◌, is_some, or_else,
  if◌then◌else◌,
}
use ghoststake.Prelude.Int.{ℤ, pos, neg_ℕ}
use ghoststake.Text.{Text}
use ghoststake.Lend.{max_withdraw, withdraw_problem, utilization_after, WithdrawProblem}
use ghoststake.Forms.{Send, supply, withdraw_supply, is_over, approve_first}

pub data Mode : Type 0 where
  supplying withdrawing : Mode

-- What the form has read: the wallet's balance and its allowance to the pool, the claim on the pool,
-- and the pool's money and loans.
pub record LendReads : Type 0 where
  pub wallet : Option ℕ
  pub allowance : Option ℕ
  pub balance : Option ℕ
  pub available : Option ℕ
  pub total_borrowed : Option ℕ

unfoldable pub max_of : Mode → LendReads → Option ℕ
max_of supplying r = r.wallet
max_of withdrawing r = some (max_withdraw (or_else r.balance 0) (or_else r.available 0))

abbrev pub over_wallet : Mode → LendReads → ℕ → Bool
over_wallet supplying r amount = is_over r.wallet amount
over_wallet withdrawing r amount = false

abbrev pub problem_of : Mode → LendReads → ℕ → Option WithdrawProblem
problem_of supplying r amount = none
problem_of withdrawing r amount =
    withdraw_problem amount (or_else r.balance 0) (or_else r.available 0)

abbrev pub needs_approval : Mode → Option ℕ → ℕ → Bool
needs_approval supplying allowance amount = ltb (or_else allowance 0) amount
needs_approval withdrawing allowance amount = false

abbrev pub delta_of : Mode → ℕ → ℤ
delta_of supplying amount = pos amount
delta_of withdrawing amount = neg_ℕ amount

abbrev preview_at : Option ℕ → Option ℕ → ℤ → Option ℕ
preview_at (some borrowed) (some available) delta =
    some (utilization_after borrowed available delta)
preview_at (some borrowed) none delta = none
preview_at none available delta = none

-- The utilization that the form shows for after the transaction.
unfoldable pub preview : Mode → LendReads → Option ℕ → Option ℕ
preview mode r parsed = preview_at r.total_borrowed r.available (delta_of mode (or_else parsed 0))

unfoldable pub is_disabled : Bool → Mode → LendReads → Option ℕ → Bool
is_disabled busy mode r none = true
is_disabled busy mode r (some amount) =
    busy || (amount == 0 || (over_wallet mode r amount || is_some (problem_of mode r amount)))

-- The call itself; the panel of the stocks page passes `mode` as its name.
abbrev pub action_of : Mode → ℕ → Send
action_of supplying amount = supply amount
action_of withdrawing amount = withdraw_supply amount

-- What `submit` sends.
unfoldable pub submit : Text → Text → Mode → Option ℕ → Option ℕ → List Send
submit asset pool mode allowance none = []
submit asset pool mode allowance (some amount) =
    approve_first (needs_approval mode allowance amount) asset pool amount
      (action_of mode amount ∷ [])

-- `max` and `disabled` of the panel on the stocks page.
abbrev lesser : ℕ → ℕ → ℕ
lesser a b = if ltb a b then a else b

abbrev pub panel_max : Mode → LendReads → Option ℕ
panel_max supplying r = r.wallet
panel_max withdrawing r = some (lesser (or_else r.balance 0) (or_else r.available 0))

unfoldable pub is_panel_disabled : Bool → Mode → LendReads → Option ℕ → Bool
is_panel_disabled busy mode r none = true
is_panel_disabled busy mode r (some amount) =
    busy || (amount == 0 || is_over (panel_max mode r) amount)
