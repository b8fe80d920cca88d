-- ===== src/StockVault/Repaid.antt =====
-- A repayment of more than is owed clears the debt.
use ghoststake.Prelude.{
  ℕ, ◌≤◌, ◌<◌, ◌≡◌, refl, true, false, some, ltb, ◌==◌, arith, Returns, guard-Returns, OnSome-eq,
}
use ghoststake.Pool.Entries.{value_at, sum, value_at-le-sum}
use ghoststake.Pool.{
  Pool, Curve, Caller, accrue, balance_of_debt, repay_on, repaid_scaled, min, repay as pool_repay,
}
use ghoststake.Pool.Books.{IsBooked, accrue-IsBooked, repaid_scaled-le}
use ghoststake.Pool.Trips.{accrue-IsAt, accrue_again, repay-inv}
use ghoststake.Pool.Rounding.{RepaysWithin, repay_on-within}
use ghoststake.StockVault.{Vault, Setup, Visit, repay, repay_on as vault_repay_on, as_module}

pool_repays :
    (c : Curve) (m : Caller) (amount user : ℕ) (p : Pool)
    → IsBooked p
    → p.last_accrual_time ≡ m.now
    → 0 < amount
    → amount ≤ balance_of_debt p user
    → Returns (pool_repay c m amount user true p)
unfolding pool_repay repay_on
pool_repays c m amount user p b now some_amount within =
    let scaled = repaid_scaled user amount p in
    let le : scaled ≤ value_at user p.scaled_debt = repaid_scaled-le user amount p in
    let le' : value_at user p.scaled_debt ≤ sum p.scaled_debt =
      value_at-le-sum user p.scaled_debt in
    guard-Returns (amount == 0) _ (ground arith) (
      rw (accrue_again c m.now p now) (
        guard-Returns (ltb (balance_of_debt p user) amount) _ (ground arith) (
          guard-Returns (ltb p.total_borrow_scaled scaled) _ (ground (arith, b.debt_total))
            (_, refl))))

pool_clears :
    (c : Curve) (m : Caller) (user : ℕ) (p q : Pool)
    → p.last_accrual_time ≡ m.now
    → pool_repay c m (balance_of_debt p user) user true p ≡ some q
    → value_at user q.scaled_debt ≡ 0
pool_clears c m user p q now h =
    let debt = balance_of_debt p user in
    let into = repay-inv c m debt p p q (accrue_again c m.now p now) user h in
    let w = OnSome-eq (RepaysWithin p user debt) _ q (repay_on-within user debt p) into in w.2 refl

-- Out of a pool whose books are in order, a repayment of at least the accrued debt goes through and
-- leaves none of it.
pub repay_clears :
    (s : Setup) (m : Visit) (amount user : ℕ) (v : Vault) (p : Pool)
    → IsBooked v.pool
    → accrue s.curve m.now v.pool ≡ some p
    → 0 < balance_of_debt p user
    → balance_of_debt p user ≤ amount
    → (w : Vault) × (repay s m amount user true v ≡ some w) × (value_at user w.pool.scaled_debt ≡ 0)
unfolding repay vault_repay_on
repay_clears s m amount user v p b e owes covered =
    let debt = balance_of_debt p user in
    let now = accrue-IsAt s.curve m.now v.pool p e in
    let booked = accrue-IsBooked s.curve m.now v.pool p b e in
    let (q, h) = pool_repays s.curve (as_module m) debt user p booked now owes (omega arith) in
    let paid : min debt amount ≡ debt = ground arith in
    let none_left = pool_clears s.curve (as_module m) user p q now h in
    let some_debt : (debt == 0) ≡ false = ground arith in
    (record v { pool = q }, rw (e, paid, some_debt, h) refl, none_left)
