-- ===== src/Pool/Books.antt =====
-- The totals of the pool are the sums of its accounts, whatever is called.
use ghoststake.Prelude.{
  ℕ, ◌+◌, ◌-◌, ◌*◌, ◌/◌, ◌≤◌, ◌<◌, ◌≡◌, refl, Bool, true, false, not, Option, none, some, List, [],
  ◌∷◌, ltb, ◌==◌, arith, OnSome, OnSome-guard, OnSome-eq, if-holds,
}
use ghoststake.Pool.Entries.{Mapping, value_at, assign, sum, sum-assign, value_at-le-sum}
use ghoststake.Pool.{
  Curve, Caller, Pool, ray, accrue, grown, with_accrued, supply, supply_on, withdraw, withdraw_on,
  borrow, borrow_on, repay, repay_on, absorb_bad_debt, absorb_on, socialise, withdraw_reserves,
  deployed, taken_scaled, mul_div_up, min, at_least_one, total_supplied, balance_of_supply,
  balance_of_debt, repaid_scaled,
}
use ghoststake.Pool.Indices.{run_calls-IsAbove}
use ghoststake.Pool.Calls.{
  Op, accrues, supplies, withdraws, borrows, repays, absorbs, takes_reserves, donates, apply_call,
  or_same, run_calls,
}

pub record IsBooked (p : Pool) : Type 0 where
  pub supply_total : p.total_supply_scaled ≡ sum p.scaled_supply
  pub debt_total : p.total_borrow_scaled ≡ sum p.scaled_debt
  pub borrow_from : ray ≤ p.borrow_index
  pub supply_some : 0 < p.supply_index

-- Of a call that reverts nothing is claimed.
abbrev Books : Option Pool → Type 0
Books = OnSome IsBooked

grown-IsBooked : (c : Curve) (now g h : ℕ) (p : Pool) → IsBooked p → IsBooked (grown c now g h p)
unfolding grown
grown-IsBooked c now g h p b = record {
  supply_total = b.supply_total;
  debt_total = b.debt_total;
  borrow_from = omega (arith, b.borrow_from);
  supply_some = omega (arith, b.supply_some);
}

accrue-Books : (c : Curve) (now : ℕ) (p : Pool) → IsBooked p → Books (accrue c now p)
unfolding accrue
accrue-Books c now p b = OnSome-guard IsBooked (ltb now p.last_accrual_time) _ (λ _.
    if-holds IsBooked (now - p.last_accrual_time == 0) p _ (λ _. b)
      (λ _. grown-IsBooked c now _ _ p b))

pub accrue-IsBooked :
    (c : Curve) (now : ℕ) (p q : Pool) → IsBooked p → accrue c now p ≡ some q → IsBooked q
accrue-IsBooked c now p q b e = OnSome-eq IsBooked (accrue c now p) q (accrue-Books c now p b) e

Books-accrued :
    (o : Option Pool) (f : Pool → Option Pool)
    → Books o
    → ((p : Pool) → IsBooked p → Books (f p))
    → Books (with_accrued o f)
Books-accrued none f b h = tt
Books-accrued (some p) f b h = h p b

-- Less of a mapping and of its total.
sum-taken :
    (user scaled total : ℕ) (es : Mapping)
    → scaled ≤ value_at user es
    → total ≡ sum es
    → total - scaled ≡ sum (assign user (value_at user es - scaled) es)
sum-taken user scaled total es within e =
    omega (arith, value_at-le-sum user es, sum-assign user (value_at user es - scaled) es)

supply_on-Books :
    (sender amount : ℕ) (pays : Bool) (p : Pool)
    → IsBooked p
    → Books (supply_on sender amount pays p)
unfolding supply_on
supply_on-Books sender amount false p b = tt
supply_on-Books sender amount true p b = record {
  supply_total = omega (arith, b.supply_total, sum-assign sender _ p.scaled_supply);
  debt_total = b.debt_total;
  borrow_from = b.borrow_from;
  supply_some = b.supply_some;
}

taken_scaled-le : (scaled held : ℕ) → taken_scaled scaled held ≤ held
taken_scaled-le scaled held = ground arith

withdraw_on-Books :
    (sender amount : ℕ) (p : Pool) → IsBooked p → Books (withdraw_on sender amount p)
unfolding withdraw_on
withdraw_on-Books sender amount p b =
    let held = value_at sender p.scaled_supply in
    let scaled = taken_scaled (mul_div_up amount ray p.supply_index) held in
    OnSome-guard IsBooked (ltb (balance_of_supply p sender) amount) _ (λ _.
      OnSome-guard IsBooked (ltb p.cash amount) _ (λ _.
        OnSome-guard IsBooked (ltb p.total_supply_scaled scaled) _ (λ _. record {
          supply_total =
              sum-taken sender scaled p.total_supply_scaled p.scaled_supply
                (taken_scaled-le (mul_div_up amount ray p.supply_index) held) b.supply_total;
          debt_total = b.debt_total;
          borrow_from = b.borrow_from;
          supply_some = b.supply_some;
        })))

borrow_on-Books : (user amount : ℕ) (p : Pool) → IsBooked p → Books (borrow_on user amount p)
unfolding borrow_on
borrow_on-Books user amount p b = OnSome-guard IsBooked (ltb p.cash amount) _ (λ _. record {
  supply_total = b.supply_total;
  debt_total = omega (arith, b.debt_total, sum-assign user _ p.scaled_debt);
  borrow_from = b.borrow_from;
  supply_some = b.supply_some;
})

pub repaid_scaled-le :
    (user amount : ℕ) (p : Pool) → repaid_scaled user amount p ≤ value_at user p.scaled_debt
unfolding repaid_scaled
repaid_scaled-le user amount p = ground arith

repay_on-Books :
    (user amount : ℕ) (pays : Bool) (p : Pool) → IsBooked p → Books (repay_on user amount pays p)
unfolding repay_on
repay_on-Books user amount pays p b =
    let scaled = repaid_scaled user amount p in
    OnSome-guard IsBooked (ltb (balance_of_debt p user) amount) _ (λ _.
      OnSome-guard IsBooked (not pays) _ (λ _.
        OnSome-guard IsBooked (ltb p.total_borrow_scaled scaled) _ (λ _. record {
          supply_total = b.supply_total;
          debt_total =
              sum-taken user scaled p.total_borrow_scaled p.scaled_debt
                (repaid_scaled-le user amount p) b.debt_total;
          borrow_from = b.borrow_from;
          supply_some = b.supply_some;
        })))

at_least_one-pos : (n : ℕ) → 0 < at_least_one n
at_least_one-pos n = ground arith

socialise-IsBooked : (remainder : ℕ) (p : Pool) → IsBooked p → IsBooked (socialise remainder p)
unfolding socialise
socialise-IsBooked remainder p b =
    if-holds IsBooked (remainder == 0) p _ (λ _. b)
      (λ _.
        if-holds IsBooked (total_supplied p == 0) _ _
          (λ _. record {
            supply_total = b.supply_total;
            debt_total = b.debt_total;
            borrow_from = b.borrow_from;
            supply_some = b.supply_some;
          })
          (λ _. record {
            supply_total = b.supply_total;
            debt_total = b.debt_total;
            borrow_from = b.borrow_from;
            supply_some = at_least_one-pos (
                (p.supply_index * (total_supplied p - min remainder (total_supplied p)))
                / total_supplied p);
          }))

-- The tally of the losses is not of the books.
counted-IsBooked :
    (loss : ℕ) (p : Pool)
    → IsBooked p
    → IsBooked (record p { total_bad_debt = p.total_bad_debt + loss })
counted-IsBooked loss p b = record {
  supply_total = b.supply_total;
  debt_total = b.debt_total;
  borrow_from = b.borrow_from;
  supply_some = b.supply_some;
}

absorb_on-Books : (user : ℕ) (p : Pool) → IsBooked p → Books (absorb_on user p)
unfolding absorb_on
absorb_on-Books user p b =
    let held = value_at user p.scaled_debt in
    OnSome-guard IsBooked (balance_of_debt p user == 0) _ (λ _.
      OnSome-guard IsBooked (ltb p.total_borrow_scaled held) _ (λ _. counted-IsBooked _ _ (
        socialise-IsBooked _ _ (record {
          supply_total = b.supply_total;
          debt_total = omega (arith, b.debt_total, sum-assign user 0 p.scaled_debt);
          borrow_from = b.borrow_from;
          supply_some = b.supply_some;
        }))))

withdraw_reserves-Books :
    (m : Caller) (amount : ℕ) (p : Pool) → IsBooked p → Books (withdraw_reserves m amount p)
unfolding withdraw_reserves
withdraw_reserves-Books m amount p b = OnSome-guard IsBooked (not m.is_owner) _ (λ _.
    OnSome-guard IsBooked (amount == 0) _ (λ _.
      OnSome-guard IsBooked (ltb p.total_reserves amount) _ (λ _.
        OnSome-guard IsBooked (ltb (p.cash - total_supplied p) amount) _ (λ _. record {
          supply_total = b.supply_total;
          debt_total = b.debt_total;
          borrow_from = b.borrow_from;
          supply_some = b.supply_some;
        }))))

after-accrue :
    (c : Curve) (now : ℕ) (p : Pool) (f : Pool → Option Pool)
    → IsBooked p
    → ((q : Pool) → IsBooked q → Books (f q))
    → Books (with_accrued (accrue c now p) f)
after-accrue c now p f b h = Books-accrued (accrue c now p) f (accrue-Books c now p b) h

apply_call-Books :
    (c : Curve) (m : Caller) (p : Pool) (op : Op) → IsBooked p → Books (apply_call c m p op)
unfolding apply_call supply withdraw borrow repay absorb_bad_debt
apply_call-Books c m p accrues b = accrue-Books c m.now p b
apply_call-Books c m p (supplies amount pays) b = OnSome-guard IsBooked (not m.entries_open) _ (λ _.
    OnSome-guard IsBooked (amount == 0) _ (λ _.
      after-accrue c m.now p (supply_on m.sender amount pays) b
        (supply_on-Books m.sender amount pays)))
apply_call-Books c m p (withdraws amount) b = OnSome-guard IsBooked (amount == 0) _ (λ _.
    after-accrue c m.now p (withdraw_on m.sender amount) b (withdraw_on-Books m.sender amount))
apply_call-Books c m p (borrows amount user) b = OnSome-guard IsBooked (not m.is_module) _ (λ _.
    OnSome-guard IsBooked (not m.entries_open) _ (λ _.
      OnSome-guard IsBooked (amount == 0) _
        (λ _. after-accrue c m.now p (borrow_on user amount) b (borrow_on-Books user amount))))
apply_call-Books c m p (repays amount user pays) b =
    OnSome-guard IsBooked (amount == 0) _
      (λ _. after-accrue c m.now p (repay_on user amount pays) b (repay_on-Books user amount pays))
apply_call-Books c m p (absorbs user) b =
    OnSome-guard IsBooked (not m.is_module) _
      (λ _. after-accrue c m.now p (absorb_on user) b (absorb_on-Books user))
apply_call-Books c m p (takes_reserves amount) b = withdraw_reserves-Books m amount p b
apply_call-Books c m p (donates amount) b = record {
  supply_total = b.supply_total;
  debt_total = b.debt_total;
  borrow_from = b.borrow_from;
  supply_some = b.supply_some;
}

or_same-IsBooked : (p : Pool) (o : Option Pool) → IsBooked p → Books o → IsBooked (or_same p o)
or_same-IsBooked p none b h = b
or_same-IsBooked p (some q) b h = h

run_calls-from :
    (c : Curve) (calls : List (Caller × Op)) (p : Pool)
    → IsBooked p
    → IsBooked (run_calls c calls p)
unfolding run_calls
run_calls-from c [] p b = b
run_calls-from c ((m, op) ∷ calls) p b =
    run_calls-from c calls _ (or_same-IsBooked p _ b (apply_call-Books c m p op b))

-- After any calls by anybody at any times from the deployment on, reverted ones included, the
-- pool's two totals are the sums of its accounts, the index of the debts is at least one, the
-- index of the supplies is not zero, and no further calls lower the index of the debts.
pub run_calls-IsBooked :
    (c : Curve) (start : ℕ) (calls later : List (Caller × Op))
    → IsBooked (run_calls c calls (deployed start))
      × ((run_calls c calls (deployed start)).borrow_index
          ≤ (run_calls c later (run_calls c calls (deployed start))).borrow_index)
run_calls-IsBooked c start calls later =
    let booked = run_calls-from c calls (deployed start) (record {
      supply_total = refl;
      debt_total = refl;
      borrow_from = omega arith;
      supply_some = omega arith;
    }) in
    (booked, run_calls-IsAbove c later _)
