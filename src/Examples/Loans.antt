-- ===== src/Examples/Loans.antt =====
-- Runs of the lending pool, of the stock-loan vault and of the forms on them.
use ghoststake.Prelude.{
  ℕ, ◌+◌, ◌-◌, ◌*◌, ◌/◌, ◌^◌, ◌≤◌, ◌<◌, ◌≡◌, ◌⊎◌, refl, true, false, none, some, List, [], ◌∷◌,
  arith, ◌==◌, ◌&&◌, ltb, if◌then◌else◌, Returns, guard-Returns,
}
use ghoststake.Prelude.Int.{pos}
use ghoststake.Text.{codes}
use ghoststake.Rounds.{wad}
use ghoststake.StockLoan.{StockCollateral, summarise, max_borrow, trim, origination_fee_on}
use ghoststake.Pool.Entries.{value_at, assign}
use ghoststake.Pool.{
  Pool, Curve, Caller, ray, accrue, supply, supply_on, withdraw, withdraw_on, borrow, borrow_on,
  repay, repay_on, repaid_scaled, balance_of_supply, balance_of_debt, deployed, utilization,
  borrow_rate_at, supply_rate_at, grown, total_borrowed, absorb_bad_debt, absorb_on, socialise,
  total_supplied,
}
use ghoststake.Pool.Calls.{Op, run_calls}
use ghoststake.Pool.Books.{IsBooked, run_calls-IsBooked}
use ghoststake.Pool.Trips.{supply-withdraw, borrow-repay}
use ghoststake.StockVault.{
  Collateral, Setup, Feeds, Vault, Visit, Totals, totals, totals_from, value, price,
  borrow as vault_borrow, borrow_within, withdraw as vault_withdraw, still_covered,
  repay as vault_repay,
}
use ghoststake.StockVault.Limits.{summarise-limit-le}
use ghoststake.StockVault.Covered.{IsCovered, IsLeftCovered, borrow-IsCovered, withdraw-IsCovered}
use ghoststake.StockVault.Liquidation.{
  tokens_for, max_repay, seize, liquidate_on, liquidate, hand_over, price_of_everything,
  write_off_on, write_off_bad_debt,
}
use ghoststake.StockVault.Liquidation.Laws.{Liquidates, liquidate-Liquidates}
use ghoststake.StockVault.Liquidation.WriteOff.{write_off-clears}
use ghoststake.Stake.{accrual_margin}
use ghoststake.Forms.{send_all}
use ghoststake.Forms.Lend
use ghoststake.Forms.Lend.{LendReads}
use ghoststake.Forms.LendChain.{Asset, World, land, enabled-lands}
use ghoststake.Forms.Loan
use ghoststake.Forms.Loan.{LoanReads}
use ghoststake.Forms.LoanChain.{
  land as land_loan, loan-lands, loan_over_liquidity, repay_all-clears,
}
use ghoststake.Forms.Position
use ghoststake.Forms.Position.{PositionReads, Allowed, Covered}

coins_transfer :
    (n : ℕ) (s : ℕ × ℕ)
    → n ≤ s.0
    → n ≤ s.1
    → Returns {A = ℕ × ℕ}
        (if ltb s.0 n then none else if ltb s.1 n then none else some (s.0 - n, s.1 - n))
coins_transfer n s h k =
    guard-Returns {A = ℕ × ℕ} (ltb s.0 n) _ (ground arith)
      (guard-Returns (ltb s.1 n) _ (ground arith) (_, refl))

coins_send :
    (held n : ℕ) (s : ℕ × ℕ)
    → n ≤ held
    → Returns {A = ℕ × ℕ} (if ltb held n then none else some (s.0 + n, s.1))
coins_send held n s h = guard-Returns {A = ℕ × ℕ} (ltb held n) _ (ground arith) (_, refl)

abbrev curve : Curve
curve = record {
  base_rate_per_second = 0;
  slope1_per_second = 10 ^ 9;
  slope2_per_second = 10 ^ 10;
  kink = 8 * 10 ^ 17;
  reserve_factor = 10 ^ 17;
}

-- Account 1 has supplied a thousand, and account 2 owes four hundred of it.
abbrev lending : Pool
lending = record {
  supply_index = ray;
  borrow_index = ray;
  last_accrual_time = 100;
  total_supply_scaled = 1000;
  total_borrow_scaled = 400;
  total_reserves = 0;
  total_bad_debt = 0;
  unsocialised_bad_debt = 0;
  scaled_supply = record { user = 1; amount = 1000 } ∷ [];
  scaled_debt = record { user = 2; amount = 400 } ∷ [];
  cash = 600;
}

lending-IsBooked : IsBooked lending
lending-IsBooked = record {
  supply_total = refl;
  debt_total = refl;
  borrow_from = omega arith;
  supply_some = omega arith;
}

abbrev by : ℕ → Caller
by user = record {
  sender = user;
  is_owner = false;
  is_module = true;
  entries_open = true;
  now = 100;
}

-- A supply, a loan, a repayment of a part a day later, and a withdrawal that the pool cannot pay.
abbrev calls : List (Caller × Op)
calls =
    (by 1, Op.supplies 1000 true)
    ∷ (by 9, Op.borrows 400 2)
    ∷ (record (by 9) { now = 86500 }, Op.repays 100 2 true)
    ∷ (record (by 1) { now = 86500 }, Op.withdraws 1000)
    ∷ []

run_calls-IsBooked_example :
    IsBooked (run_calls curve calls (deployed 100))
    × ((run_calls curve calls (deployed 100)).borrow_index
        ≤ (run_calls curve calls (run_calls curve calls (deployed 100))).borrow_index)
run_calls-IsBooked_example = run_calls-IsBooked curve 100 calls calls

-- The part that is repaid is rounded down, so that one unit more than three hundred is left.
debt_after_day : balance_of_debt (run_calls curve calls (deployed 100)) 2 ≡ 301
unfolding run_calls balance_of_debt supply borrow repay withdraw accrue supply_on borrow_on repay_on
    withdraw_on repaid_scaled balance_of_supply utilization borrow_rate_at supply_rate_at grown
    total_borrowed value_at assign
debt_after_day = refl

abbrev supplied : Pool
supplied = record lending {
  total_supply_scaled = 1050;
  scaled_supply = record { user = 1; amount = 1050 } ∷ [];
  cash = 650;
}

abbrev withdrawn : Pool
withdrawn = record lending {
  total_supply_scaled = 1020;
  scaled_supply = record { user = 1; amount = 1020 } ∷ [];
  cash = 620;
}

supply-withdraw_example :
    (balance_of_supply withdrawn 1 + 30 ≤ balance_of_supply lending 1 + 50)
    × (withdrawn.cash + 30 ≡ lending.cash + 50)
unfolding accrue supply supply_on withdraw withdraw_on balance_of_supply value_at assign
supply-withdraw_example =
    supply-withdraw curve (by 1) 50 30 lending lending supplied withdrawn lending-IsBooked refl refl
      refl

abbrev lent : Pool
lent = record lending {
  total_borrow_scaled = 500;
  scaled_debt = record { user = 2; amount = 500 } ∷ [];
  cash = 500;
}

abbrev repaid : Pool
repaid = record lending {
  total_borrow_scaled = 0;
  scaled_debt = record { user = 2; amount = 0 } ∷ [];
  cash = 1000;
}

borrow-repay_example :
    (balance_of_debt lending 2 + 100 ≤ balance_of_debt lent 2)
    × (balance_of_debt lent 2 ≤ balance_of_debt lending 2 + 100 + lending.borrow_index / ray + 1)
    × (balance_of_debt lent 2 ≤ balance_of_debt repaid 2 + 500)
    × (balance_of_debt repaid 2 + 500 ≤ balance_of_debt lent 2 + lent.borrow_index / ray + 1)
    × ((500 < balance_of_debt lent 2) ⊎ (value_at 2 repaid.scaled_debt ≡ 0))
    × (lent.cash + 100 ≡ lending.cash)
    × (repaid.cash ≡ lent.cash + 500)
unfolding accrue borrow borrow_on repay repay_on repaid_scaled balance_of_debt value_at assign
borrow-repay_example =
    borrow-repay curve (by 9) 100 500 2 lending lending lent repaid lending-IsBooked refl refl refl

-- A token of eighteen decimals at two hundred dollars, the loan in a token of six.
abbrev tesla : Collateral
tesla = record {
  token = 7;
  max_ltv = 5 * 10 ^ 17;
  liquidation_threshold = 7 * 10 ^ 17;
  liquidation_bonus = 10 ^ 17;
  max_age = 3600;
  liquidation_max_age = 86400;
  scaled_ui = false;
  token_decimals = 18;
  feed_decimals = 8;
}

abbrev setup : Setup
setup = record {
  curve = curve;
  collaterals = tesla ∷ [];
  stable_decimals = 6;
  origination_fee = 10 ^ 16;
  close_factor = 5 * 10 ^ 17;
}

abbrev feeds : Feeds
feeds = record {
  answer = λ token. pos (200 * 10 ^ 8);
  updated_at = λ token. 90;
  multiplier = λ token. wad;
}

-- Account 2 has a thousandth of a token, worth two hundred thousand units, beside its loan.
abbrev vault : Vault
vault = record { pool = lending; collateral_of = λ user token. 10 ^ 15 }

abbrev visit : Visit
visit = record { sender = 2; entries_open = true; pool_open = true; now = 100 }

abbrev limits : Totals
limits = record { value = 200000; borrow_limit = 100000; liquidation_line = 140000 }

abbrev shown : StockCollateral
shown = record {
  token = codes "0x7";
  symbol = codes "TSLA";
  name = codes "Tesla";
  decimals = 18;
  max_ltv = 5 * 10 ^ 17;
  liquidation_threshold = 7 * 10 ^ 17;
  liquidation_bonus = 0;
  max_age = 3600;
  liquidation_max_age = 86400;
  wallet = some 0;
  allowance = none;
  deposited = some (10 ^ 15);
  value_per_token = some 200000000;
  updated_at = some 90;
}

summarise-limit-le_example : (summarise (shown ∷ [])).borrow_limit ≤ 100000
unfolding totals totals_from value price
summarise-limit-le_example =
    summarise-limit-le feeds setup 100 (λ token. 10 ^ 15) (shown ∷ []) limits
      (
        record {
          deposited_read = refl;
          unit_read = refl;
          decimals_read = refl;
          ltv_read = refl;
          unscaled = refl;
        },
        tt,
      )
      refl

abbrev vault_after : Vault
vault_after = record {
  pool = record lending {
    total_borrow_scaled = 501;
    scaled_debt = record { user = 2; amount = 501 } ∷ [];
    cash = 499;
  };
  collateral_of = λ user token. 10 ^ 15;
}

borrow-IsCovered_example : IsCovered feeds setup visit vault vault_after
unfolding vault_borrow borrow_within totals totals_from value price accrue borrow borrow_on
    balance_of_debt value_at assign
borrow-IsCovered_example =
    borrow-IsCovered feeds setup visit vault vault_after 100 lending-IsBooked refl

abbrev left_in : Vault
left_in = record {
  pool = lending;
  collateral_of = λ u t. if u == 2 && t == 7 then 10 ^ 15 - 10 ^ 14 else 10 ^ 15;
}

withdraw-IsCovered_example : IsLeftCovered feeds setup visit vault left_in
unfolding vault_withdraw still_covered totals totals_from value price accrue balance_of_debt
    value_at
withdraw-IsCovered_example =
    withdraw-IsCovered feeds setup visit vault left_in 7 (10 ^ 14) true refl

-- The token has fallen: the collateral is worth the loan.
abbrev fallen : Vault
fallen = record { pool = lending; collateral_of = λ user token. 2 * 10 ^ 12 }

abbrev liquidated : Vault
liquidated = record {
  pool = record lending {
    total_borrow_scaled = 300;
    scaled_debt = record { user = 2; amount = 300 } ∷ [];
    cash = 700;
  };
  collateral_of = λ u t. if u == 2 && t == 7 then 2 * 10 ^ 12 - 55 * 10 ^ 10 else 2 * 10 ^ 12;
}

liquidate-Liquidates_example : Liquidates feeds setup visit fallen liquidated 2 7 (some 100)
unfolding liquidate liquidate_on seize tokens_for max_repay totals totals_from value price accrue
    repay repay_on repaid_scaled balance_of_debt value_at assign
liquidate-Liquidates_example =
    liquidate-Liquidates feeds setup visit fallen liquidated 2 7 (some 100) true (omega arith) refl

-- And further, so that it is worth half of it.
abbrev sunk : Vault
sunk = record { pool = lending; collateral_of = λ user token. 10 ^ 12 }

abbrev written_off : Vault
written_off = record {
  pool = record lending {
    supply_index = 781 * 10 ^ 24;
    total_borrow_scaled = 0;
    total_bad_debt = 219;
    scaled_debt = record { user = 2; amount = 0 } ∷ [];
    cash = 781;
  };
  collateral_of = λ u t. if u == 2 && t == 7 then 0 else 10 ^ 12;
}

write_off-clears_example :
    (p : Pool) × (t : Totals) × (accrue curve 100 lending ≡ some p)
    × (totals feeds setup 100 true (λ token. 10 ^ 12) ≡ some t)
    × (t.value < balance_of_debt p 2)
    × (value_at 2 written_off.pool.scaled_debt ≡ 0)
    × (written_off.collateral_of 2 7 ≡ 0)
unfolding write_off_bad_debt write_off_on hand_over price_of_everything totals totals_from value
    price accrue repay repay_on repaid_scaled balance_of_debt value_at assign absorb_bad_debt
    absorb_on socialise total_supplied
write_off-clears_example = write_off-clears feeds setup visit 2 7 true sunk written_off refl refl

-- The forms.
abbrev coins : Asset
coins = record {
  Tokens = ℕ × ℕ;
  balance = λ s. s.0;
  allowance = λ s. s.1;
  approve = λ n s. (s.0, n);
  transfer_from =
      λ n s. if ltb s.0 n then none else if ltb s.1 n then none else some (s.0 - n, s.1 - n);
  transfer_to = λ held n s. if ltb held n then none else some (s.0 + n, s.1);
  allowance-approve = λ n s. refl;
  balance-approve = λ n s. refl;
  transfers = coins_transfer;
  sends = coins_send;
}

abbrev world : World coins
world = record { pool = lending; tokens = (80, 0) }

abbrev lend_reads : LendReads
lend_reads = record {
  wallet = some 80;
  allowance = some 0;
  balance = some 1000;
  available = some 600;
  total_borrowed = some 400;
}

enabled-lands_example :
    (send_all
      (land coins (codes "usdc") (codes "pool") curve (by 1))
      (Lend.submit (codes "usdc") (codes "pool") Lend.Mode.supplying (some 0) (some 50))
      world).1
    ≡ true
unfolding balance_of_supply value_at Lend.is_disabled
enabled-lands_example =
    enabled-lands coins curve (by 1) world (codes "usdc") (codes "pool") Lend.Mode.supplying
      lend_reads 50 (record { booked = lending-IsBooked; later = omega arith; entries = refl })
      (record {
        wallet_read = refl;
        allowance_read = refl;
        balance_read = refl;
        available_read = refl;
      })
      refl

abbrev loan_reads : LoanReads
loan_reads = record {
  summary = record {
    value = 200000;
    borrow_limit = 100000;
    liquidation_line = 140000;
    incomplete = false;
  };
  debt = some 400;
  liquidity = some 600;
  wallet = some 900;
  allowance = none;
}

loan-lands_example :
    (send_all
      (land_loan feeds setup visit)
      (Loan.submit (codes "usdc") (codes "vault") Loan.Mode.borrowing loan_reads (some 100))
      vault).1
    ≡ true
unfolding accrue totals totals_from value price balance_of_debt value_at Loan.is_disabled max_borrow
    trim origination_fee_on accrual_margin
loan-lands_example =
    loan-lands feeds setup visit vault loan_reads 100 false (codes "usdc") (codes "vault") lending
      limits (record { debt_read = refl; liquidity_read = refl }) refl refl refl refl (omega arith)
      (omega arith) (omega arith) refl

loan_over_liquidity_example :
    (Loan.is_disabled false Loan.Mode.borrowing loan_reads (10 ^ 16) false (some 600) ≡ false)
    × (send_all
          (land_loan feeds setup visit)
          (Loan.submit (codes "usdc") (codes "vault") Loan.Mode.borrowing loan_reads (some 600))
          vault
        ≡ (vault, false))
unfolding balance_of_debt value_at max_borrow trim origination_fee_on accrual_margin
loan_over_liquidity_example =
    loan_over_liquidity feeds setup visit vault loan_reads 600 false (codes "usdc") (codes "vault")
      (record { debt_read = refl; liquidity_read = refl }) (omega arith) (omega arith) (omega arith)
      (omega arith)

abbrev vault_cleared : Vault
vault_cleared = record vault {
  pool = record lending {
    total_borrow_scaled = 0;
    scaled_debt = record { user = 2; amount = 0 } ∷ [];
    cash = 1000;
  };
}

repay_all-clears_example :
    (w : Vault) × (vault_repay setup visit
        (Loan.to_send Loan.Mode.repaying loan_reads 400)
        2
        true
        vault
      ≡ some w)
    × (value_at 2 w.pool.scaled_debt ≡ 0)
unfolding balance_of_debt value_at accrue
repay_all-clears_example =
    repay_all-clears setup visit vault loan_reads 400 900 lending lending-IsBooked refl refl
      (omega arith) (omega arith) refl (omega arith) (omega arith)

abbrev position_reads : PositionReads
position_reads = record {
  wallet = some 500;
  router_allowance = some 40;
  delegation = none;
  max_borrowable = some 300;
  lien = some 0;
  collateral_value = none;
  liquidation_threshold = none;
}

abbrev granted : Allowed
granted = record { tokens = 40; loan = 0 }
