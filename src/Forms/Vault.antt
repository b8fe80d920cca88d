-- ===== src/Forms/Vault.antt =====
-- The forms on the deposit vault: `BorrowScreen` of ghoststake-frontend/src/app/(app)/borrow/page.tsx
-- and `DepositWithdraw` of ghoststake-frontend/src/app/(app)/stake/page.tsx.
use ghoststake.Prelude.{
  ℕ, Bool, true, false, ◌||◌, ◌&&◌, not, Option, none, some, List, [], ◌∷◌, ltb, leb, ◌==◌, or_else,
  if◌then◌else◌,
}
use ghoststake.Text.{Text}
use ghoststake.Stake.{pay_off_amount, borrow_headroom}
use ghoststake.Forms.{Send, deposit, withdraw, borrow, repay, is_over, approve_first}

pub data Loan : Type 0 where
  borrowing repaying : Loan

pub record VaultReads : Type 0 where
  pub collateral_value : Option ℕ
  pub lien : Option ℕ
  pub max_borrowable : Option ℕ
  pub liquidation_threshold : Option ℕ
  pub wallet : Option ℕ
  pub allowance : Option ℕ

abbrev pub lien_of : VaultReads → ℕ
lien_of r = or_else r.lien 0

abbrev headroom : Option ℕ → ℕ → Option ℕ
headroom none lien = none
headroom (some max) lien = some (borrow_headroom max lien)

unfoldable pub loan_max : Loan → VaultReads → Option ℕ
loan_max borrowing r = headroom r.max_borrowable (lien_of r)
loan_max repaying r = r.lien

abbrev over_wallet : Loan → VaultReads → ℕ → Bool
over_wallet borrowing r amount = false
over_wallet repaying r amount = is_over r.wallet amount

unfoldable pub is_loan_disabled : Bool → Loan → VaultReads → Option ℕ → Bool
unfolding loan_max
is_loan_disabled busy mode r none = true
is_loan_disabled busy mode r (some amount) =
    busy || (amount == 0 || (is_over (loan_max mode r) amount || over_wallet mode r amount))

-- `toSend` where there is an amount.
unfoldable pub to_send : Loan → VaultReads → ℕ → ℕ
to_send borrowing r amount = amount
to_send repaying r amount =
    if ltb 0 (lien_of r) && leb (lien_of r) amount
    then pay_off_amount (lien_of r) (or_else r.wallet amount)
    else amount

abbrev loan_needs_approval : Loan → VaultReads → ℕ → Bool
loan_needs_approval borrowing r amount = false
loan_needs_approval repaying r amount = ltb (or_else r.allowance 0) amount

abbrev loan_action : Loan → ℕ → ℕ → Send
loan_action borrowing amount sent = borrow amount
loan_action repaying amount sent = repay sent

unfoldable pub submit_loan : Text → Text → Loan → VaultReads → Option ℕ → List Send
unfolding to_send
submit_loan asset vault mode r none = []
submit_loan asset vault mode r (some amount) =
    approve_first (loan_needs_approval mode r (to_send mode r amount)) asset vault
      (to_send mode r amount) (loan_action mode amount (to_send mode r amount) ∷ [])

pub data Stake : Type 0 where
  depositing withdrawing : Stake

-- `walletBalance`, `deposited`, `lien` and the allowance of the stake form.
abbrev pub stake_max : Stake → VaultReads → Option ℕ
stake_max depositing r = r.wallet
stake_max withdrawing r = r.collateral_value

abbrev short_of : Option ℕ → ℕ → Bool
short_of none amount = false
short_of (some deposited) amount = ltb amount deposited

-- `partialExitBlocked`
unfoldable pub is_partial_exit : Stake → VaultReads → ℕ → Bool
is_partial_exit depositing r amount = false
is_partial_exit withdrawing r amount = ltb 0 (lien_of r) && short_of r.collateral_value amount

-- `exitWithLoan` and `exitBelowLoan`
unfoldable pub is_exit_with_loan : Stake → VaultReads → ℕ → Bool
unfolding is_partial_exit
is_exit_with_loan depositing r amount = false
is_exit_with_loan withdrawing r amount =
    ltb 0 (lien_of r) && (ltb 0 amount && not (is_partial_exit withdrawing r amount))

unfoldable pub is_exit_below_loan : Stake → VaultReads → ℕ → Bool
unfolding is_exit_with_loan
is_exit_below_loan mode r amount = is_exit_with_loan mode r amount && ltb amount (lien_of r)

unfoldable pub is_stake_disabled : Bool → Stake → VaultReads → Option ℕ → Bool
unfolding is_partial_exit is_exit_below_loan
is_stake_disabled busy mode r none = true
is_stake_disabled busy mode r (some amount) =
    busy
    || (amount == 0
        || (is_over (stake_max mode r) amount
            || (is_partial_exit mode r amount || is_exit_below_loan mode r amount)))

abbrev stake_needs_approval : Stake → VaultReads → ℕ → Bool
stake_needs_approval depositing r amount = ltb (or_else r.allowance 0) amount
stake_needs_approval withdrawing r amount = false

abbrev stake_action : Stake → ℕ → Send
stake_action depositing amount = deposit amount
stake_action withdrawing amount = withdraw amount

unfoldable pub submit_stake : Text → Text → Stake → VaultReads → Option ℕ → List Send
submit_stake asset vault mode r none = []
submit_stake asset vault mode r (some amount) =
    approve_first (stake_needs_approval mode r amount) asset vault amount
      (stake_action mode amount ∷ [])
