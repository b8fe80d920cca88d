-- ===== src/Pool/Trips.antt =====
-- Going into the pool and out of it in one block.
use ghoststake.Prelude.{
  ℕ, ◌+◌, ◌-◌, ◌/◌, ◌≤◌, ◌<◌, ◌≡◌, ◌⊎◌, inl, inr, Bool-cases, refl, true, not, Option, some, ltb,
  ◌==◌, arith, OnSome-guard, OnSome-eq, if-holds, guard-eq,
}
use ghoststake.Pool.{
  ray, Curve, Caller, Pool, accrue, grown, with_accrued, balance_of_supply, balance_of_debt,
  withdraw, withdraw_on, supply, supply_on, borrow, borrow_on, repay, repay_on,
}
use ghoststake.Pool.Entries.{value_at}
use ghoststake.Pool.Books.{IsBooked, accrue-IsBooked}
use ghoststake.Pool.Rounding.{
  SuppliesWithin, WithdrawsWithin, BorrowsWithin, RepaysWithin, supply_on-within,
  withdraw_on-within, borrow_on-within, repay_on-within,
}

abbrev pub IsAt : ℕ → Pool → Type 0
IsAt now p = p.last_accrual_time ≡ now

grown-IsAt : (c : Curve) (now g h : ℕ) (p : Pool) → IsAt now (grown c now g h p)
unfolding grown
grown-IsAt c now g h p = refl

pub accrue-IsAt : (c : Curve) (now : ℕ) (p p' : Pool) → accrue c now p ≡ some p' → IsAt now p'
unfolding accrue
accrue-IsAt c now p p' = OnSome-eq (IsAt now) (accrue c now p) p' (
    OnSome-guard (IsAt now) (ltb now p.last_accrual_time) _ (λ h.
      if-holds (IsAt now) (now - p.last_accrual_time == 0) p _ (λ k. ground arith)
        (λ _. grown-IsAt c now _ _ p)))

-- Nothing accrues twice in a block.
pub accrue_again : (c : Curve) (now : ℕ) (p : Pool) → IsAt now p → accrue c now p ≡ some p
unfolding accrue
accrue_again c now p e = ground arith

-- What a call that accrues first has done.
with_accrued-inv :
    (o : Option Pool) (f : Pool → Option Pool) (p' q : Pool)
    → o ≡ some p'
    → with_accrued o f ≡ some q
    → f p' ≡ some q
with_accrued-inv o f p' q e h = rw e at h

module _ (c : Curve) (m : Caller) (amount : ℕ) (p p' q : Pool)
    (e : accrue c m.now p ≡ some p') where
  supply-inv : supply c m amount true p ≡ some q → supply_on m.sender amount true p' ≡ some q
  unfolding supply
  supply-inv h =
      with_accrued-inv (accrue c m.now p) _ p' q e
        (guard-eq (amount == 0) _ (guard-eq (not m.entries_open) _ h))

  withdraw-inv : withdraw c m amount p ≡ some q → withdraw_on m.sender amount p' ≡ some q
  unfolding withdraw
  withdraw-inv h = with_accrued-inv (accrue c m.now p) _ p' q e (guard-eq (amount == 0) _ h)

  pub borrow-inv :
      (user : ℕ) → borrow c m amount user p ≡ some q → borrow_on user amount p' ≡ some q
  unfolding borrow
  borrow-inv user h =
      with_accrued-inv (accrue c m.now p) _ p' q e (
        guard-eq (amount == 0) _ (guard-eq (not m.entries_open) _ (guard-eq (not m.is_module) _ h)))

  pub repay-inv :
      (user : ℕ) → repay c m amount user true p ≡ some q → repay_on user amount true p' ≡ some q
  unfolding repay
  repay-inv user h = with_accrued-inv (accrue c m.now p) _ p' q e (guard-eq (amount == 0) _ h)

supply_on-IsAt :
    (now sender amount : ℕ) (p q : Pool)
    → IsAt now p
    → supply_on sender amount true p ≡ some q
    → IsAt now q
unfolding supply_on
supply_on-IsAt now sender amount p q e = OnSome-eq (IsAt now) _ q e

supply_on-index :
    (sender amount : ℕ) (p q : Pool)
    → 0 < p.supply_index
    → supply_on sender amount true p ≡ some q
    → 0 < q.supply_index
unfolding supply_on
supply_on-index sender amount p q h = OnSome-eq (λ (x : Pool). 0 < x.supply_index) _ q h

borrow_on-IsAt :
    (now user amount : ℕ) (p q : Pool) → IsAt now p → borrow_on user amount p ≡ some q → IsAt now q
unfolding borrow_on
borrow_on-IsAt now user amount p q e =
    OnSome-eq (IsAt now) (borrow_on user amount p) q
      (OnSome-guard (IsAt now) (ltb p.cash amount) _ (λ _. e))

-- From a pool whose books are in order, whoever supplies an amount and withdraws another in the same
-- block is paid it by the pool, and what the account may claim after is at most its claim before,
-- with what it supplied and less what it withdrew.
pub supply-withdraw :
    (c : Curve) (m : Caller) (paid taken : ℕ) (p p' q r : Pool)
    → IsBooked p
    → accrue c m.now p ≡ some p'
    → supply c m paid true p ≡ some q
    → withdraw c m taken q ≡ some r
    → (balance_of_supply r m.sender + taken ≤ balance_of_supply p' m.sender + paid)
      × (r.cash + taken ≡ p'.cash + paid)
supply-withdraw c m paid taken p p' q r b e f g =
    let b' = accrue-IsBooked c m.now p p' b e in
    let into = supply-inv c m paid p p' q e f in
    let now = supply_on-IsAt m.now m.sender paid p' q (accrue-IsAt c m.now p p' e) into in
    let again = accrue_again c m.now q now in
    let out = withdraw-inv c m taken q q r again g in
    let s =
      OnSome-eq (SuppliesWithin p' m.sender paid) _ q
        (supply_on-within m.sender paid p' b'.supply_some) into in
    let w =
      OnSome-eq (WithdrawsWithin q m.sender taken) _ r
        (withdraw_on-within m.sender taken q
          (supply_on-index m.sender paid p' q b'.supply_some into))
        out in
    (omega (arith, s.0, w.0), omega (arith, s.2, w.1))

paid_in_part :
    (paid debt : ℕ) (Clear : Type 0) → paid ≤ debt → (paid ≡ debt → Clear) → (paid < debt) ⊎ Clear
paid_in_part paid debt Clear le clear = elim (Bool-cases (ltb paid debt)) [
  | inl less ↦ inl (ground arith)
  | inr all ↦ inr (clear (ground arith))
]

-- From a pool whose books are in order, whoever the module borrows for owes at least that much
-- more, and at most a slack above it, of what one scaled unit is worth and one; a repayment in the
-- same block lowers the debt by no more than is paid, and by no less but for that slack; it is of
-- less than is owed or leaves no scaled debt; and the pool pays out what is lent and holds what is
-- repaid.
pub borrow-repay :
    (c : Curve) (m : Caller) (lent paid user : ℕ) (p p' q r : Pool)
    → IsBooked p
    → accrue c m.now p ≡ some p'
    → borrow c m lent user p ≡ some q
    → repay c m paid user true q ≡ some r
    → (balance_of_debt p' user + lent ≤ balance_of_debt q user)
      × (balance_of_debt q user ≤ balance_of_debt p' user + lent + p'.borrow_index / ray + 1)
      × (balance_of_debt q user ≤ balance_of_debt r user + paid)
      × (balance_of_debt r user + paid ≤ balance_of_debt q user + q.borrow_index / ray + 1)
      × ((paid < balance_of_debt q user) ⊎ (value_at user r.scaled_debt ≡ 0))
      × (q.cash + lent ≡ p'.cash)
      × (r.cash ≡ q.cash + paid)
borrow-repay c m lent paid user p p' q r b e f g =
    let b' = accrue-IsBooked c m.now p p' b e in
    let out = borrow-inv c m lent p p' q e user f in
    let now = borrow_on-IsAt m.now user lent p' q (accrue-IsAt c m.now p p' e) out in
    let again = accrue_again c m.now q now in
    let into = repay-inv c m paid q q r again user g in
    let s =
      OnSome-eq (BorrowsWithin p' user lent) _ q
        (borrow_on-within user lent p' (omega (arith, b'.borrow_from))) out in
    let w = OnSome-eq (RepaysWithin q user paid) _ r (repay_on-within user paid q) into in
    (s.0, s.1, w.1, w.4, paid_in_part paid (balance_of_debt q user) _ w.0 w.2, s.2, w.3)
