-- ===== src/StockVault/Loans.antt =====
-- When the vault lends.
use ghoststake.Prelude.{
  ℕ, ◌+◌, ◌≤◌, ◌<◌, ◌≡◌, refl, sym, true, false, not, Option, none, some, ltb, ◌==◌, arith, Returns,
  guard-Returns,
}
use ghoststake.Pool.{Pool, Curve, Caller, accrue, balance_of_debt, borrow_on, borrow as pool_borrow}
use ghoststake.Pool.Growth.{accrue-Grows}
use ghoststake.Pool.Trips.{accrue-IsAt, accrue_again}
use ghoststake.StockVault.{
  Vault, Setup, Feeds, Visit, Totals, totals, borrow, borrow_within, with_pool, with_totals,
  on_pool, as_module, fee_on,
}

-- The pool lends what it has.
pool_lends :
    (c : Curve) (m : Caller) (amount user : ℕ) (p : Pool)
    → p.last_accrual_time ≡ m.now
    → m.is_module ≡ true
    → m.entries_open ≡ true
    → 0 < amount
    → amount ≤ p.cash
    → Returns (pool_borrow c m amount user p)
unfolding pool_borrow borrow_on
pool_lends c m amount user p now is_module is_open some_amount enough =
    guard-Returns (not m.is_module) _ (rw is_module) (
      guard-Returns (not m.entries_open) _ (rw is_open) (
        guard-Returns (amount == 0) _ (ground arith) (
          rw (accrue_again c m.now p now)
            (guard-Returns (ltb p.cash amount) _ (ground arith) (_, refl)))))

-- A pool that has less than is asked of it does not lend.
pool_refuses :
    (c : Curve) (m : Caller) (amount user : ℕ) (p : Pool)
    → p.last_accrual_time ≡ m.now
    → p.cash < amount
    → pool_borrow c m amount user p ≡ none
unfolding pool_borrow borrow_on
pool_refuses c m amount user p now short = ground (arith, accrue_again c m.now p now)

-- Through the accrual, and the totals.
pub with_pool-Returns :
    (o : Option Pool) (p : Pool) (f : Pool → Option Vault)
    → o ≡ some p
    → Returns (f p)
    → Returns (with_pool o f)
with_pool-Returns o p f e r = rw e r

with_totals-Returns :
    (o : Option Totals) (t : Totals) (f : Totals → Option Vault)
    → o ≡ some t
    → Returns (f t)
    → Returns (with_totals o f)
with_totals-Returns o t f e r = rw e r

on_pool-Returns : (v : Vault) (o : Option Pool) → Returns o → Returns (on_pool v o)
on_pool-Returns v o (p, e) = (record v { pool = p }, rw e refl)

module _ (f : Feeds) (s : Setup) (m : Visit) (amount : ℕ) (v : Vault) where
  -- The vault lends an amount that keeps the debt within the limit, its fee included, when the pool
  -- has the amount and the fee.
  pub borrow_accepts :
      (p : Pool) (t : Totals)
      → m.entries_open ≡ true
      → m.pool_open ≡ true
      → 0 < amount
      → accrue s.curve m.now v.pool ≡ some p
      → totals f s m.now false (v.collateral_of m.sender) ≡ some t
      → balance_of_debt p m.sender + amount + fee_on s amount ≤ t.borrow_limit
      → amount + fee_on s amount ≤ p.cash
      → Returns (borrow f s m amount v)
  unfolding borrow borrow_within
  borrow_accepts p t is_open pool_open some_amount e k within enough =
      guard-Returns (not m.entries_open) _ (rw is_open) (
        guard-Returns (amount == 0) _ (ground arith) (
          with_pool-Returns _ p _ e (
            with_totals-Returns _ t _ k (
              guard-Returns
                (ltb t.borrow_limit (balance_of_debt p m.sender + amount + fee_on s amount)) _
                (ground arith)
                (on_pool-Returns v _ (
                  pool_lends s.curve (as_module m) (amount + fee_on s amount) m.sender p
                    (accrue-IsAt s.curve m.now v.pool p e) refl pool_open (omega arith) enough))))))

  within_refuses :
      (p : Pool) (t : Totals)
      → p.last_accrual_time ≡ m.now
      → p.cash < amount + fee_on s amount
      → borrow_within s m amount v p t ≡ none
  unfolding borrow_within
  within_refuses p t now short =
      ground
        (arith, pool_refuses s.curve (as_module m) (amount + fee_on s amount) m.sender p now short)

  totals_refuse :
      (p : Pool) (o : Option Totals)
      → p.last_accrual_time ≡ m.now
      → p.cash < amount + fee_on s amount
      → with_totals o (borrow_within s m amount v p) ≡ none
  totals_refuse p none now short = refl
  totals_refuse p (some t) now short = within_refuses p t now short

  accrual_refuses :
      (o : Option Pool)
      → o ≡ accrue s.curve m.now v.pool
      → v.pool.cash < amount + fee_on s amount
      → with_pool o (λ p.
        with_totals
          (totals f s m.now false (v.collateral_of m.sender))
          (borrow_within s m amount v p))
        ≡ none
  accrual_refuses none e short = refl
  accrual_refuses (some p) e short =
      let g = accrue-Grows s.curve m.now v.pool p (sym e) in
      totals_refuse p _ (accrue-IsAt s.curve m.now v.pool p (sym e)) (omega (arith, g.same_cash))

  -- A pool that has less than the amount and its fee makes the loan revert.
  pub borrow_refuses : v.pool.cash < amount + fee_on s amount → borrow f s m amount v ≡ none
  unfolding borrow
  borrow_refuses short = ground (arith, accrual_refuses (accrue s.curve m.now v.pool) refl short)
