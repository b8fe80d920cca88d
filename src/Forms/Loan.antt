-- ===== src/Forms/Loan.antt =====
-- Borrowing against stock tokens and repaying: `LoanPanel` of
-- ghoststake-frontend/src/app/(app)/stocks/page.tsx. `blocked` is whether some price is stale.
use ghoststake.Prelude.{
  ℕ, ◌+◌, Bool, true, false, ◌||◌, ◌&&◌, Option, none, some, List, [], ◌∷◌, ltb, leb, ◌==◌, or_else,
  if◌then◌else◌,
}
use ghoststake.Prelude.Int.{ℤ, pos, ◌-ℤ◌}
use ghoststake.Text.{Text}
use ghoststake.Stake.{accrual_margin, pay_off_amount}
use ghoststake.StockLoan.{Summary, max_borrow, origination_fee_on}
use ghoststake.Forms.{Send, borrow_stock, repay_stock, approve_first}

pub data Mode : Type 0 where
  borrowing repaying : Mode

pub record LoanReads : Type 0 where
  pub summary : Summary
  pub debt : Option ℕ
  pub liquidity : Option ℕ
  pub wallet : Option ℕ
  pub allowance : Option ℕ

abbrev pub owed : LoanReads → ℕ
owed r = or_else r.debt 0

-- `borrowMax`
abbrev pub borrow_max : LoanReads → ℕ → ℕ
borrow_max r fee = max_borrow r.summary.borrow_limit (owed r + accrual_margin (owed r)) fee

unfoldable pub max_of : Mode → LoanReads → ℕ → ℕ
max_of borrowing r fee =
    let liquidity = or_else r.liquidity 0 in
    if ltb (borrow_max r fee) liquidity then borrow_max r fee else liquidity
max_of repaying r fee = owed r

abbrev pub over_wallet : Mode → LoanReads → ℕ → Bool
over_wallet borrowing r amount = false
over_wallet repaying r amount = ltb (or_else r.wallet 0) amount

abbrev pub is_stopped : Mode → Bool → Bool
is_stopped borrowing blocked = blocked
is_stopped repaying blocked = false

unfoldable pub is_disabled :
    Bool → Mode → LoanReads → (fee : ℕ) → (blocked : Bool) → Option ℕ → Bool
unfolding max_of
is_disabled busy mode r fee blocked none = true
is_disabled busy mode r fee blocked (some amount) =
    busy
    || (amount == 0
        || (ltb (max_of mode r fee) amount
            || (over_wallet mode r amount || is_stopped mode blocked)))

-- `debtAfter`, which the screen shows as no less than zero.
unfoldable pub debt_after : Mode → LoanReads → ℕ → Option ℕ → ℤ
debt_after borrowing r fee none = pos (owed r)
debt_after borrowing r fee (some amount) = pos (owed r + amount + origination_fee_on amount fee)
debt_after repaying r fee parsed = pos (owed r) -ℤ pos (or_else parsed 0)

-- `toSend` where there is an amount.
unfoldable pub to_send : Mode → LoanReads → ℕ → ℕ
to_send borrowing r amount = amount
to_send repaying r amount =
    if leb (owed r) amount && ltb 0 (owed r)
    then pay_off_amount (owed r) (or_else r.wallet 0)
    else amount

abbrev needs_approval : Mode → LoanReads → ℕ → Bool
needs_approval borrowing r amount = false
needs_approval repaying r amount = ltb (or_else r.allowance 0) amount

abbrev action_of : Mode → ℕ → ℕ → Send
action_of borrowing amount sent = borrow_stock amount
action_of repaying amount sent = repay_stock sent

unfoldable pub submit : Text → Text → Mode → LoanReads → Option ℕ → List Send
unfolding to_send
submit stable vault mode r none = []
submit stable vault mode r (some amount) =
    approve_first (needs_approval mode r (to_send mode r amount)) stable vault
      (to_send mode r amount) (action_of mode amount (to_send mode r amount) ∷ [])
