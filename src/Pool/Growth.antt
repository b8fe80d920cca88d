-- ===== src/Pool/Growth.antt =====
-- Accrual moves no money and takes from nobody; what an account may do before it, it may do after.
use ghoststake.Prelude.{
  ℕ, ◌-◌, ◌*◌, ◌≤◌, ◌<◌, ◌≡◌, refl, true, not, Option, some, ltb, ◌==◌, arith, OnSome, OnSome-guard,
  OnSome-eq, if-holds, div_mono, Returns, guard-Returns,
}
use ghoststake.Pool.Entries.{value_at, sum, value_at-le-sum}
use ghoststake.Pool.{
  Curve, Caller, Pool, ray, accrue, grown, with_accrued, balance_of_supply, balance_of_debt,
  withdraw, withdraw_on, supply, supply_on, taken_scaled, mul_div_up,
}
use ghoststake.Pool.Books.{IsBooked, accrue-IsBooked}

-- What accrual leaves as it was, and what it lets grow.
pub record Grows (p q : Pool) : Type 0 where
  pub same_supply : q.scaled_supply ≡ p.scaled_supply
  pub same_debt : q.scaled_debt ≡ p.scaled_debt
  pub same_cash : q.cash ≡ p.cash
  pub supply_grows : p.supply_index ≤ q.supply_index
  pub borrow_grows : p.borrow_index ≤ q.borrow_index

Grows-same : (p : Pool) → Grows p p
Grows-same p = record {
  same_supply = refl;
  same_debt = refl;
  same_cash = refl;
  supply_grows = omega arith;
  borrow_grows = omega arith;
}

grown-Grows : (c : Curve) (now g h : ℕ) (p : Pool) → Grows p (grown c now g h p)
unfolding grown
grown-Grows c now g h p = record {
  same_supply = refl;
  same_debt = refl;
  same_cash = refl;
  supply_grows = omega arith;
  borrow_grows = omega arith;
}

accrue-OnSome : (c : Curve) (now : ℕ) (p : Pool) → OnSome (Grows p) (accrue c now p)
unfolding accrue
accrue-OnSome c now p = OnSome-guard (Grows p) (ltb now p.last_accrual_time) _ (λ _.
    if-holds (Grows p) (now - p.last_accrual_time == 0) p _ (λ _. Grows-same p)
      (λ _. grown-Grows c now _ _ p))

pub accrue-Grows : (c : Curve) (now : ℕ) (p q : Pool) → accrue c now p ≡ some q → Grows p q
accrue-Grows c now p q e = OnSome-eq (Grows p) (accrue c now p) q (accrue-OnSome c now p) e

pub balance_of_supply-Grows :
    (p q : Pool) (user : ℕ) → Grows p q → balance_of_supply p user ≤ balance_of_supply q user
unfolding balance_of_supply
balance_of_supply-Grows p q user g = rw g.same_supply (
    div_mono (value_at user p.scaled_supply * p.supply_index)
      (value_at user p.scaled_supply * q.supply_index) ray (omega arith)
      (grind (arith, g.supply_grows)))

pub balance_of_debt-Grows :
    (p q : Pool) (user : ℕ) → Grows p q → balance_of_debt p user ≤ balance_of_debt q user
unfolding balance_of_debt
balance_of_debt-Grows p q user g = rw g.same_debt (
    div_mono (value_at user p.scaled_debt * p.borrow_index)
      (value_at user p.scaled_debt * q.borrow_index) ray (omega arith)
      (grind (arith, g.borrow_grows)))

-- Time does not run backwards.
pub accrues_on :
    (c : Curve) (now : ℕ) (p : Pool) → p.last_accrual_time ≤ now → Returns (accrue c now p)
unfolding accrue
accrues_on c now p h = guard-Returns (ltb now p.last_accrual_time) _ (ground arith) (_, refl)

withdraw_on_accepts :
    (sender amount : ℕ) (p : Pool)
    → IsBooked p
    → amount ≤ balance_of_supply p sender
    → amount ≤ p.cash
    → Returns (withdraw_on sender amount p)
unfolding withdraw_on
withdraw_on_accepts sender amount p b within enough =
    let held = value_at sender p.scaled_supply in
    let scaled = taken_scaled (mul_div_up amount ray p.supply_index) held in
    let le : held ≤ sum p.scaled_supply = value_at-le-sum sender p.scaled_supply in
    guard-Returns (ltb (balance_of_supply p sender) amount) _ (ground arith) (
      guard-Returns (ltb p.cash amount) _ (ground arith) (
        guard-Returns (ltb p.total_supply_scaled scaled) _ (ground (arith, b.supply_total))
          (_, refl)))

-- A call that accrues first returns where what follows does.
after_accrual :
    (c : Curve) (now : ℕ) (p p' : Pool) (f : Pool → Option Pool)
    → accrue c now p ≡ some p'
    → Returns (f p')
    → Returns (with_accrued (accrue c now p) f)
after_accrual c now p p' f e r = rw e r

-- In a pool whose books are in order, a supplier is paid any amount above zero that was within its
-- claim and within the pool's money before the accrual, at that time or later.
pub withdraw_accepts :
    (c : Curve) (m : Caller) (amount : ℕ) (p : Pool)
    → IsBooked p
    → p.last_accrual_time ≤ m.now
    → 0 < amount
    → amount ≤ balance_of_supply p m.sender
    → amount ≤ p.cash
    → Returns (withdraw c m amount p)
unfolding withdraw
withdraw_accepts c m amount p b later some_amount within enough =
    let (p', e) = accrues_on c m.now p later in
    let g = accrue-Grows c m.now p p' e in
    guard-Returns (amount == 0) _ (ground arith) (
      after_accrual c m.now p p' (withdraw_on m.sender amount) e (
        withdraw_on_accepts m.sender amount p' (accrue-IsBooked c m.now p p' b e)
          (omega (arith, balance_of_supply-Grows p p' m.sender g)) (omega (arith, g.same_cash))))

pub supply_accepts :
    (c : Curve) (m : Caller) (amount : ℕ) (p : Pool)
    → p.last_accrual_time ≤ m.now
    → 0 < amount
    → m.entries_open ≡ true
    → Returns (supply c m amount true p)
unfolding supply supply_on
supply_accepts c m amount p later some_amount is_open =
    let (p', e) = accrues_on c m.now p later in
    guard-Returns (not m.entries_open) _ (rw is_open) (
      guard-Returns (amount == 0) _ (ground arith)
        (after_accrual c m.now p p' (supply_on m.sender amount true) e (_, refl)))
