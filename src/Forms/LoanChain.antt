-- ===== src/Forms/LoanChain.antt =====
-- The loan form against the vault: which of the loans that it offers go through.
use ghoststake.Prelude.{
  ℕ, ◌+◌, ◌-◌, ◌*◌, ◌≤◌, ◌<◌, ◌≡◌, refl, Bool, true, false, Option, none, some, or_else, arith,
}
use ghoststake.Text.{Text}
use ghoststake.Rounds.{wad}
use ghoststake.Stake.{accrual_margin, pay_off_amount}
use ghoststake.StockLoan.{max_borrow, origination_fee_on}
use ghoststake.StockLoan.Borrow.{max_borrow_iff}
use ghoststake.Pool.{Pool, accrue, balance_of_debt}
use ghoststake.Pool.Entries.{value_at}
use ghoststake.Pool.Books.{IsBooked}
use ghoststake.Pool.Growth.{accrue-Grows, balance_of_debt-Grows}
use ghoststake.StockVault.{Vault, Setup, Feeds, Visit, Totals, totals, borrow, repay, fee_on}
use ghoststake.StockVault.Repaid.{repay_clears}
use ghoststake.StockVault.Loans.{borrow_accepts, borrow_refuses}
use ghoststake.Forms.{Send, send_all}
use ghoststake.Forms.Loan.{
  borrowing, repaying, to_send, LoanReads, borrow_max, owed, is_disabled, submit,
}

abbrev settled : Vault → Option Vault → Vault × Bool
settled v none = (v, false)
settled v (some v') = (v', true)

-- The loan is the one transaction of the form when it borrows.
abbrev pub land : Feeds → Setup → Visit → Vault → Send → Vault × Bool
land f s m v (Send.borrow_stock amount) = settled v (borrow f s m amount v)
land f s m v _ = (v, false)

-- The form's reads of the loan are what the chain says.
pub record IsCurrent (r : LoanReads) (m : Visit) (v : Vault) : Type 0 where
  pub debt_read : r.debt ≡ some (balance_of_debt v.pool m.sender)
  pub liquidity_read : r.liquidity ≡ some v.pool.cash

fee_on-eq : (s : Setup) (amount : ℕ) → fee_on s amount ≡ origination_fee_on amount s.origination_fee
unfolding origination_fee_on
fee_on-eq s amount =
    let e : amount * s.origination_fee + (wad - 1) ≡ amount * s.origination_fee + wad - 1 =
      omega arith in
    rw e refl

-- An offered amount, its fee and the margin fit the limit, and the amount fits the pool.
offered :
    (r : LoanReads) (fee amount : ℕ) (blocked : Bool)
    → is_disabled false borrowing r fee blocked (some amount) ≡ false
    → (0 < amount) × (amount ≤ borrow_max r fee) × (amount ≤ or_else r.liquidity 0)
unfolding is_disabled
offered r fee amount blocked e = ground arith

fits :
    (limit debt fee amount : ℕ)
    → 0 < amount
    → amount ≤ max_borrow limit (debt + accrual_margin debt) fee
    → debt + accrual_margin debt + amount + origination_fee_on amount fee ≤ limit
fits limit debt fee amount some_amount h =
    (max_borrow_iff limit (debt + accrual_margin debt) fee amount some_amount).1 h

margin_covers :
    (debt now_owed : ℕ) → (now_owed - debt) * 1000 ≤ debt → now_owed ≤ debt + accrual_margin debt
unfolding accrual_margin
margin_covers debt now_owed h = ground arith

module _ (f : Feeds) (s : Setup) (m : Visit) (v : Vault) (r : LoanReads) (amount : ℕ)
    (blocked : Bool) where
  send_loan :
      (stable vault : Text) (out : Option Vault)
      → borrow f s m amount v ≡ out
      → send_all (land f s m) (submit stable vault borrowing r (some amount)) v ≡ settled v out
  unfolding submit send_all
  send_loan stable vault none e = rw e refl
  send_loan stable vault (some v') e = rw e refl

  -- Where the form's reads are what the chain says, the pool can accrue and the vault can price the
  -- collateral, the limit that the form computed is no more than the vault's, entries into the vault
  -- and into the pool are open, no more than a thousandth of the debt has accrued by the time of
  -- the loan, and the pool has the amount and its fee, a loan that the enabled form asks for is made.
  pub loan-lands :
      (stable vault : Text) (p : Pool) (t : Totals)
      → IsCurrent r m v
      → m.entries_open ≡ true
      → m.pool_open ≡ true
      → accrue s.curve m.now v.pool ≡ some p
      → totals f s m.now false (v.collateral_of m.sender) ≡ some t
      → r.summary.borrow_limit ≤ t.borrow_limit
      → (balance_of_debt p m.sender - balance_of_debt v.pool m.sender) * 1000
        ≤ balance_of_debt v.pool m.sender
      → amount + fee_on s amount ≤ p.cash
      → is_disabled false borrowing r s.origination_fee blocked (some amount) ≡ false
      → (send_all (land f s m) (submit stable vault borrowing r (some amount)) v).1 ≡ true
  loan-lands stable vault p t k is_open pool_open e h limit interest enough enabled =
      let (some_amount, most, _rest) = offered r s.origination_fee amount blocked enabled in
      let debt = balance_of_debt v.pool m.sender in
      let is_debt : owed r ≡ debt = ground (arith, k.debt_read) in
      let within = fits r.summary.borrow_limit (owed r) s.origination_fee amount some_amount most in
      let margin = margin_covers debt (balance_of_debt p m.sender) interest in
      let (v', lent) =
        borrow_accepts f s m amount v p t is_open pool_open some_amount e h
          (omega (arith, is_debt, within, (rw is_debt at within), margin, fee_on-eq s amount))
          enough in
      rw (send_loan stable vault (some v') lent) refl

  -- Where the form's reads are what the chain says, a loan that it offers up to all of the pool's
  -- money reverts and changes nothing whenever the pool does not have the fee on top.
  pub loan_over_liquidity :
      (stable vault : Text)
      → IsCurrent r m v
      → 0 < amount
      → amount ≤ borrow_max r s.origination_fee
      → amount ≤ v.pool.cash
      → v.pool.cash < amount + fee_on s amount
      → (is_disabled false borrowing r s.origination_fee false (some amount) ≡ false)
        × (send_all (land f s m) (submit stable vault borrowing r (some amount)) v ≡ (v, false))
  unfolding is_disabled
  loan_over_liquidity stable vault k some_amount most within short =
      let refused = borrow_refuses f s m amount v short in
      (ground (arith, k.liquidity_read), send_loan stable vault none refused)

sent_all :
    (r : LoanReads) (amount debt wallet now_owed : ℕ)
    → r.debt ≡ some debt
    → r.wallet ≡ some wallet
    → 0 < debt
    → debt ≤ amount
    → now_owed ≤ wallet
    → (now_owed - debt) * 1000 ≤ debt
    → now_owed ≤ to_send repaying r amount
unfolding to_send pay_off_amount
sent_all r amount debt wallet now_owed e k some_debt all within interest =
    ground (arith, margin_covers debt now_owed interest)

-- Where the pool's books are in order and it can accrue, the form's reads of the debt and the
-- wallet are what the chain says, there is a debt, no more than a thousandth of it has accrued by
-- then and the wallet holds what is owed, a repayment of what the form sends for the whole debt or
-- more, if the token lets the vault take it, goes through and clears the debt, interest included.
pub repay_all-clears :
    (s : Setup) (m : Visit) (v : Vault) (r : LoanReads) (amount wallet : ℕ) (p : Pool)
    → IsBooked v.pool
    → r.debt ≡ some (balance_of_debt v.pool m.sender)
    → r.wallet ≡ some wallet
    → 0 < balance_of_debt v.pool m.sender
    → balance_of_debt v.pool m.sender ≤ amount
    → accrue s.curve m.now v.pool ≡ some p
    → balance_of_debt p m.sender ≤ wallet
    → (balance_of_debt p m.sender - balance_of_debt v.pool m.sender) * 1000
      ≤ balance_of_debt v.pool m.sender
    → (w : Vault) × (repay s m (to_send repaying r amount) m.sender true v ≡ some w)
      × (value_at m.sender w.pool.scaled_debt ≡ 0)
repay_all-clears s m v r amount wallet p b e k some_debt all h within interest =
    let grows = balance_of_debt-Grows v.pool p m.sender (accrue-Grows s.curve m.now v.pool p h) in
    repay_clears s m (to_send repaying r amount) m.sender v p b h (omega (arith, grows)) (
      sent_all r amount (balance_of_debt v.pool m.sender) wallet (balance_of_debt p m.sender) e k
        some_debt all within interest)
