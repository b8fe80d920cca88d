-- ===== src/Forms/Collateral.antt =====
-- Depositing and withdrawing a stock token: `CollateralPanel` of
-- ghoststake-frontend/src/app/(app)/stocks/page.tsx. `blocked` is whether a price that the loan leans
-- on is stale.
use ghoststake.Prelude.{
  ℕ, Bool, true, false, ◌||◌, Option, none, some, List, [], ◌∷◌, ltb, ◌==◌, or_else,
}
use ghoststake.Text.{Text}
use ghoststake.StockLoan.{StockCollateral, Summary, max_withdraw}
use ghoststake.Forms.{Send, deposit_stock, withdraw_stock, is_over, approve_first}

pub data Mode : Type 0 where
  depositing withdrawing : Mode

unfoldable pub max_of : Mode → StockCollateral → Summary → Option ℕ → Option ℕ
max_of depositing c summary debt = c.wallet
max_of withdrawing c summary debt = some (max_withdraw c summary debt)

abbrev pub is_stopped : Mode → Bool → Bool
is_stopped depositing blocked = false
is_stopped withdrawing blocked = blocked

unfoldable pub is_disabled :
    Bool → Mode → StockCollateral → Summary → (debt : Option ℕ) → (blocked : Bool) → Option ℕ → Bool
unfolding max_of
is_disabled busy mode c summary debt blocked none = true
is_disabled busy mode c summary debt blocked (some amount) =
    busy
    || (amount == 0 || (is_over (max_of mode c summary debt) amount || is_stopped mode blocked))

abbrev needs_approval : Mode → StockCollateral → ℕ → Bool
needs_approval depositing c amount = ltb (or_else c.allowance 0) amount
needs_approval withdrawing c amount = false

abbrev action_of : Mode → Text → ℕ → Send
action_of depositing token amount = deposit_stock token amount
action_of withdrawing token amount = withdraw_stock token amount

unfoldable pub submit : Text → Mode → StockCollateral → Option ℕ → List Send
submit vault mode c none = []
submit vault mode c (some amount) =
    approve_first (needs_approval mode c amount) c.token vault amount
      (action_of mode c.token amount ∷ [])
