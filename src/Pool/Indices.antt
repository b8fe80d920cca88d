-- ===== src/Pool/Indices.antt =====
-- The index of the debts only grows.
use ghoststake.Prelude.{
  ℕ, ◌-◌, ◌≤◌, Bool, not, Option, none, some, List, [], ◌∷◌, ltb, ◌==◌, arith, OnSome, OnSome-guard,
  if-holds,
}
use ghoststake.Pool.Entries.{value_at}
use ghoststake.Pool.{
  Curve, Caller, Pool, accrue, grown, with_accrued, supply, supply_on, withdraw, withdraw_on,
  borrow, borrow_on, repay, repay_on, absorb_bad_debt, absorb_on, socialise, withdraw_reserves,
  total_supplied, balance_of_supply, balance_of_debt,
}
use ghoststake.Pool.Calls.{
  Op, accrues, supplies, withdraws, borrows, repays, absorbs, takes_reserves, donates, apply_call,
  or_same, run_calls,
}

-- The index of the debts is no lower in the second pool.
abbrev IsAbove : ℕ → Pool → Type 0
IsAbove index q = index ≤ q.borrow_index

grown-IsAbove : (c : Curve) (now g h : ℕ) (p : Pool) → IsAbove p.borrow_index (grown c now g h p)
unfolding grown
grown-IsAbove c now g h p = omega arith

accrue-IsAbove : (c : Curve) (now : ℕ) (p : Pool) → OnSome (IsAbove p.borrow_index) (accrue c now p)
unfolding accrue
accrue-IsAbove c now p = OnSome-guard (IsAbove p.borrow_index) (ltb now p.last_accrual_time) _ (λ _.
    if-holds (IsAbove p.borrow_index) (now - p.last_accrual_time == 0) p _ (λ _. omega arith)
      (λ _. grown-IsAbove c now _ _ p))

accrued-IsAbove :
    (index : ℕ) (o : Option Pool) (f : Pool → Option Pool)
    → OnSome (IsAbove index) o
    → ((p : Pool) → IsAbove index p → OnSome (IsAbove index) (f p))
    → OnSome (IsAbove index) (with_accrued o f)
accrued-IsAbove index none f h k = tt
accrued-IsAbove index (some p) f h k = k p h

module _ (index : ℕ) (p : Pool) (h : IsAbove index p) where
  supply_on-IsAbove :
      (sender amount : ℕ) (pays : Bool) → OnSome (IsAbove index) (supply_on sender amount pays p)
  unfolding supply_on
  supply_on-IsAbove sender amount pays = OnSome-guard (IsAbove index) (not pays) _ (λ _. h)

  withdraw_on-IsAbove : (sender amount : ℕ) → OnSome (IsAbove index) (withdraw_on sender amount p)
  unfolding withdraw_on
  withdraw_on-IsAbove sender amount =
      OnSome-guard (IsAbove index) (ltb (balance_of_supply p sender) amount) _ (λ _.
        OnSome-guard (IsAbove index) (ltb p.cash amount) _
          (λ _. OnSome-guard (IsAbove index) (ltb p.total_supply_scaled _) _ (λ _. h)))

  borrow_on-IsAbove : (user amount : ℕ) → OnSome (IsAbove index) (borrow_on user amount p)
  unfolding borrow_on
  borrow_on-IsAbove user amount = OnSome-guard (IsAbove index) (ltb p.cash amount) _ (λ _. h)

  repay_on-IsAbove :
      (user amount : ℕ) (pays : Bool) → OnSome (IsAbove index) (repay_on user amount pays p)
  unfolding repay_on
  repay_on-IsAbove user amount pays =
      OnSome-guard (IsAbove index) (ltb (balance_of_debt p user) amount) _ (λ _.
        OnSome-guard (IsAbove index) (not pays) _
          (λ _. OnSome-guard (IsAbove index) (ltb p.total_borrow_scaled _) _ (λ _. h)))

  socialise-IsAbove : (remainder : ℕ) → IsAbove index (socialise remainder p)
  unfolding socialise
  socialise-IsAbove remainder =
      if-holds (IsAbove index) (remainder == 0) p _ (λ _. h)
        (λ _. if-holds (IsAbove index) (total_supplied p == 0) _ _ (λ _. h) (λ _. h))

  withdraw_reserves-IsAbove :
      (m : Caller) (amount : ℕ) → OnSome (IsAbove index) (withdraw_reserves m amount p)
  unfolding withdraw_reserves
  withdraw_reserves-IsAbove m amount = OnSome-guard (IsAbove index) (not m.is_owner) _ (λ _.
      OnSome-guard (IsAbove index) (amount == 0) _ (λ _.
        OnSome-guard (IsAbove index) (ltb p.total_reserves amount) _
          (λ _. OnSome-guard (IsAbove index) (ltb (p.cash - total_supplied p) amount) _ (λ _. h))))

absorb_on-IsAbove :
    (index : ℕ) (p : Pool)
    → IsAbove index p
    → (user : ℕ) → OnSome (IsAbove index) (absorb_on user p)
unfolding absorb_on
absorb_on-IsAbove index p h user =
    OnSome-guard (IsAbove index) (balance_of_debt p user == 0) _ (λ _.
      OnSome-guard (IsAbove index) (ltb p.total_borrow_scaled (value_at user p.scaled_debt)) _
        (λ _. socialise-IsAbove index _ h _))

after-accrue :
    (c : Curve) (now : ℕ) (p : Pool) (f : Pool → Option Pool)
    → ((q : Pool) → IsAbove p.borrow_index q → OnSome (IsAbove p.borrow_index) (f q))
    → OnSome (IsAbove p.borrow_index) (with_accrued (accrue c now p) f)
after-accrue c now p f k =
    accrued-IsAbove p.borrow_index (accrue c now p) f (accrue-IsAbove c now p) k

apply_call-IsAbove :
    (c : Curve) (m : Caller) (p : Pool) (op : Op)
    → OnSome (IsAbove p.borrow_index) (apply_call c m p op)
unfolding apply_call supply withdraw borrow repay absorb_bad_debt
apply_call-IsAbove c m p accrues = accrue-IsAbove c m.now p
apply_call-IsAbove c m p (supplies amount pays) =
    OnSome-guard (IsAbove p.borrow_index) (not m.entries_open) _ (λ _.
      OnSome-guard (IsAbove p.borrow_index) (amount == 0) _ (λ _.
        after-accrue c m.now p _
          (λ q h. supply_on-IsAbove p.borrow_index q h m.sender amount pays)))
apply_call-IsAbove c m p (withdraws amount) =
    OnSome-guard (IsAbove p.borrow_index) (amount == 0) _ (λ _.
      after-accrue c m.now p _ (λ q h. withdraw_on-IsAbove p.borrow_index q h m.sender amount))
apply_call-IsAbove c m p (borrows amount user) =
    OnSome-guard (IsAbove p.borrow_index) (not m.is_module) _ (λ _.
      OnSome-guard (IsAbove p.borrow_index) (not m.entries_open) _ (λ _.
        OnSome-guard (IsAbove p.borrow_index) (amount == 0) _ (λ _.
          after-accrue c m.now p _ (λ q h. borrow_on-IsAbove p.borrow_index q h user amount))))
apply_call-IsAbove c m p (repays amount user pays) =
    OnSome-guard (IsAbove p.borrow_index) (amount == 0) _
      (λ _. after-accrue c m.now p _ (λ q h. repay_on-IsAbove p.borrow_index q h user amount pays))
apply_call-IsAbove c m p (absorbs user) =
    OnSome-guard (IsAbove p.borrow_index) (not m.is_module) _
      (λ _. after-accrue c m.now p _ (λ q h. absorb_on-IsAbove p.borrow_index q h user))
apply_call-IsAbove c m p (takes_reserves amount) =
    withdraw_reserves-IsAbove p.borrow_index p (omega arith) m amount
apply_call-IsAbove c m p (donates amount) = omega arith

or_same-IsAbove :
    (p : Pool) (o : Option Pool)
    → OnSome (IsAbove p.borrow_index) o
    → IsAbove p.borrow_index (or_same p o)
or_same-IsAbove p none h = omega arith
or_same-IsAbove p (some q) h = h

pub run_calls-IsAbove :
    (c : Curve) (calls : List (Caller × Op)) (p : Pool)
    → p.borrow_index ≤ (run_calls c calls p).borrow_index
unfolding run_calls
run_calls-IsAbove c [] p = omega arith
run_calls-IsAbove c ((m, op) ∷ calls) p = omega (
  arith,
  or_same-IsAbove p _ (apply_call-IsAbove c m p op),
  run_calls-IsAbove c calls (or_same p (apply_call c m p op)),
)
