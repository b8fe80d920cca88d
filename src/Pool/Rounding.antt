-- ===== src/Pool/Rounding.antt =====
-- Scaled amounts are rounded in the pool's favour, by little.
use native.Mathlib.Nat.{add-mul-div_right}
use ghoststake.Prelude.{
  ℕ, zero, suc, ◌+◌, ◌-◌, ◌*◌, ◌/◌, ◌≤◌, ◌<◌, ◌≡◌, refl, true, ltb, leb, ◌==◌, arith, OnSome,
  OnSome-guard, if-holds, div_mono, div-mul-le, lt-div_suc-mul, mul_mono, div-le_of_lt,
}
use ghoststake.Pool.Entries.{Mapping, value_at, assign, value_at-assign}
use ghoststake.Pool.{
  Pool, ray, mul_div_up, balance_of_supply, balance_of_debt, taken_scaled, repaid_scaled, supply_on,
  withdraw_on, borrow_on, repay_on,
}

-- What a scaled amount is worth.
abbrev worth : ℕ → ℕ → ℕ
worth scaled index = (scaled * index) / ray

worth-add-le :
    (held scaled index amount : ℕ)
    → scaled * index ≤ amount * ray
    → worth (held + scaled) index ≤ worth held index + amount
worth-add-le held scaled index amount h =
    let le : (held + scaled) * index ≤ held * index + amount * ray = grind arith in
    let split : (held * index + amount * ray) / ray ≡ worth held index + amount =
      add-mul-div_right (held * index) amount (omega arith) in
    omega
      (arith, div_mono ((held + scaled) * index) (held * index + amount * ray) ray (omega arith) le)

worth-add-ge :
    (held scaled index amount : ℕ)
    → amount * ray ≤ scaled * index
    → worth held index + amount ≤ worth (held + scaled) index
worth-add-ge held scaled index amount h =
    let le : held * index + amount * ray ≤ (held + scaled) * index = grind arith in
    let split : (held * index + amount * ray) / ray ≡ worth held index + amount =
      add-mul-div_right (held * index) amount (omega arith) in
    omega
      (arith, div_mono (held * index + amount * ray) ((held + scaled) * index) ray (omega arith) le)

-- Rounded down and up.
floor-within : (amount index : ℕ) → ((amount * ray) / index) * index ≤ amount * ray
floor-within amount index = div-mul-le (amount * ray) index

ceil-within : (amount index : ℕ) → 0 < index → amount * ray ≤ mul_div_up amount ray index * index
ceil-within amount index some_index =
    omega (arith, lt-div_suc-mul (amount * ray + (index - 1)) index some_index)

ceil-below :
    (amount index : ℕ) → 0 < index → mul_div_up amount ray index * index < amount * ray + index
ceil-below amount index some_index = omega (arith, div-mul-le (amount * ray + (index - 1)) index)

floor-above :
    (amount index : ℕ) → 0 < index → amount * ray < ((amount * ray) / index) * index + index
floor-above amount index some_index = omega (arith, lt-div_suc-mul (amount * ray) index some_index)

-- Up to what one scaled unit is worth.
worth-slack : (a b index : ℕ) → a ≤ b + index → a / ray ≤ b / ray + index / ray + 1
worth-slack a b index h =
    div-le_of_lt (b / ray + index / ray + 1) a ray (omega arith)
      (omega (arith, lt-div_suc-mul b ray (omega arith), lt-div_suc-mul index ray (omega arith)))

worth-add_slack :
    (held scaled index amount : ℕ)
    → amount * ray ≤ scaled * index + index
    → worth held index + amount ≤ worth (held + scaled) index + index / ray + 1
worth-add_slack held scaled index amount h =
    let split : (held * index + amount * ray) / ray ≡ worth held index + amount =
      add-mul-div_right (held * index) amount (omega arith) in
    let le : held * index + amount * ray ≤ (held + scaled) * index + index = grind arith in
    omega (arith, worth-slack (held * index + amount * ray) ((held + scaled) * index) index le)

worth-add_over :
    (held scaled index amount : ℕ)
    → scaled * index ≤ amount * ray + index
    → worth (held + scaled) index ≤ worth held index + amount + index / ray + 1
worth-add_over held scaled index amount h =
    let split : (held * index + amount * ray) / ray ≡ worth held index + amount =
      add-mul-div_right (held * index) amount (omega arith) in
    let le : (held + scaled) * index ≤ held * index + amount * ray + index = grind arith in
    omega (arith, worth-slack ((held + scaled) * index) (held * index + amount * ray) index le)

-- What is left of a holding after an amount within its worth is taken, rounded up.
worth-taken :
    (held scaled index amount : ℕ)
    → amount * ray ≤ scaled * index
    → amount ≤ worth held index
    → worth (held - taken_scaled scaled held) index + amount ≤ worth held index
worth-taken held scaled index amount up within =
    if-holds (λ s. worth (held - s) index + amount ≤ worth held index) (leb held scaled) held scaled
      (λ all. let none_left : held - held ≡ 0 = omega arith in rw none_left (omega (arith, within)))
      (λ part.
        let again : (held - scaled) + scaled ≡ held = ground arith in
        let le = worth-add-ge (held - scaled) scaled index amount up in rw again at le)

-- What is left of a debt after a repayment, rounded down.
worth-repaid :
    (held scaled index amount : ℕ)
    → scaled * index ≤ amount * ray
    → worth held index ≤ worth (held - taken_scaled scaled held) index + amount
worth-repaid held scaled index amount down =
    if-holds (λ s. worth held index ≤ worth (held - s) index + amount) (leb held scaled) held scaled
      (λ all.
        let le : worth held index ≤ worth scaled index =
          div_mono (held * index) (scaled * index) ray (omega arith)
            (mul_mono held scaled index (ground arith)) in
        let le' = worth-add-le 0 scaled index amount down in
        let start : 0 + scaled ≡ scaled = omega arith in omega (arith, le, (rw start at le')))
      (λ part.
        let again : (held - scaled) + scaled ≡ held = ground arith in
        let le = worth-add-le (held - scaled) scaled index amount down in rw again at le)

value_at-assign_self :
    (user amount : ℕ) (es : Mapping) → value_at user (assign user amount es) ≡ amount
value_at-assign_self user amount es = ground (arith, value_at-assign user amount user es)

-- A repayment lowers the debt by no less than is paid, up to what one scaled unit is worth and one.
worth-repaid_slack :
    (held scaled index amount : ℕ)
    → amount ≤ worth held index
    → amount * ray ≤ scaled * index + index
    → worth (held - taken_scaled scaled held) index + amount ≤ worth held index + index / ray + 1
worth-repaid_slack held scaled index amount within near =
    if-holds (λ s. worth (held - s) index + amount ≤ worth held index + index / ray + 1)
      (leb held scaled) held scaled
      (λ all. let none_left : held - held ≡ 0 = omega arith in rw none_left (omega (arith, within)))
      (λ part.
        let again : (held - scaled) + scaled ≡ held = ground arith in
        let le = worth-add_slack (held - scaled) scaled index amount near in rw again at le)

floor-near :
    (held index amount : ℕ)
    → amount ≤ worth held index
    → amount * ray ≤ ((amount * ray) / index) * index + index
floor-near held zero amount within =
    let nothing : held * 0 ≡ 0 = omega arith in
    let no_amount : amount ≤ 0 = rw nothing at within in omega (arith, no_amount)
floor-near held (suc index) amount within =
    omega (arith, floor-above amount (suc index) (omega arith))

-- What a supplier gains, loses and keeps.
abbrev pub SuppliesWithin : Pool → ℕ → ℕ → Pool → Type 0
SuppliesWithin p sender amount q =
    (balance_of_supply q sender ≤ balance_of_supply p sender + amount)
    × (balance_of_supply p sender + amount ≤ balance_of_supply q sender + p.supply_index / ray + 1)
    × (q.cash ≡ p.cash + amount)

pub supply_on-within :
    (sender amount : ℕ) (p : Pool)
    → 0 < p.supply_index
    → OnSome (SuppliesWithin p sender amount) (supply_on sender amount true p)
unfolding supply_on balance_of_supply
supply_on-within sender amount p some_index =
    let held = value_at sender p.scaled_supply in
    let scaled = (amount * ray) / p.supply_index in
    rw (value_at-assign_self sender (held + scaled) p.scaled_supply) (
      worth-add-le held scaled p.supply_index amount (floor-within amount p.supply_index),
      worth-add_slack held scaled p.supply_index amount
          (omega (arith, floor-above amount p.supply_index some_index)),
      refl,
    )

abbrev pub WithdrawsWithin : Pool → ℕ → ℕ → Pool → Type 0
WithdrawsWithin p sender amount q =
    (balance_of_supply q sender + amount ≤ balance_of_supply p sender) × (q.cash + amount ≡ p.cash)

pub withdraw_on-within :
    (sender amount : ℕ) (p : Pool)
    → 0 < p.supply_index
    → OnSome (WithdrawsWithin p sender amount) (withdraw_on sender amount p)
unfolding withdraw_on balance_of_supply
withdraw_on-within sender amount p some_index =
    let held = value_at sender p.scaled_supply in
    let up = mul_div_up amount ray p.supply_index in
    let scaled = taken_scaled up held in
    OnSome-guard (WithdrawsWithin p sender amount) (ltb (worth held p.supply_index) amount) _
      (λ within. OnSome-guard (WithdrawsWithin p sender amount) (ltb p.cash amount) _ (λ enough.
        OnSome-guard (WithdrawsWithin p sender amount) (ltb p.total_supply_scaled scaled) _ (λ _.
          rw (value_at-assign_self sender (held - scaled) p.scaled_supply) (
            worth-taken held up p.supply_index amount (ceil-within amount p.supply_index some_index)
                (ground arith),
            ground arith,
          ))))

abbrev pub BorrowsWithin : Pool → ℕ → ℕ → Pool → Type 0
BorrowsWithin p user amount q =
    (balance_of_debt p user + amount ≤ balance_of_debt q user)
    × (balance_of_debt q user ≤ balance_of_debt p user + amount + p.borrow_index / ray + 1)
    × (q.cash + amount ≡ p.cash)

pub borrow_on-within :
    (user amount : ℕ) (p : Pool)
    → 0 < p.borrow_index
    → OnSome (BorrowsWithin p user amount) (borrow_on user amount p)
unfolding borrow_on balance_of_debt
borrow_on-within user amount p some_index =
    let held = value_at user p.scaled_debt in
    let up = mul_div_up amount ray p.borrow_index in
    OnSome-guard (BorrowsWithin p user amount) (ltb p.cash amount) _ (λ enough.
      rw (value_at-assign_self user (held + up) p.scaled_debt) (
        worth-add-ge held up p.borrow_index amount (ceil-within amount p.borrow_index some_index),
        worth-add_over held up p.borrow_index amount
            (omega (arith, ceil-below amount p.borrow_index some_index)),
        ground arith,
      ))

abbrev pub RepaysWithin : Pool → ℕ → ℕ → Pool → Type 0
RepaysWithin p user amount q =
    (amount ≤ balance_of_debt p user)
    × (balance_of_debt p user ≤ balance_of_debt q user + amount)
    × (amount ≡ balance_of_debt p user → value_at user q.scaled_debt ≡ 0)
    × (q.cash ≡ p.cash + amount)
    × (balance_of_debt q user + amount ≤ balance_of_debt p user + p.borrow_index / ray + 1)

repaid-within :
    (user amount : ℕ) (p : Pool)
    → let held = value_at user p.scaled_debt in
      worth held p.borrow_index ≤ worth (held - repaid_scaled user amount p) p.borrow_index + amount
unfolding repaid_scaled balance_of_debt
repaid-within user amount p =
    let held = value_at user p.scaled_debt in
    let down = (amount * ray) / p.borrow_index in
    if-holds (λ s. worth held p.borrow_index ≤ worth (held - s) p.borrow_index + amount)
      (amount == worth held p.borrow_index) held (taken_scaled down held) (λ all. ground arith)
      (λ _. worth-repaid held down p.borrow_index amount (floor-within amount p.borrow_index))

repaid-near :
    (user amount : ℕ) (p : Pool)
    → let held = value_at user p.scaled_debt in
      amount ≤ worth held p.borrow_index
      → worth (held - repaid_scaled user amount p) p.borrow_index + amount
        ≤ worth held p.borrow_index + p.borrow_index / ray + 1
unfolding repaid_scaled balance_of_debt
repaid-near user amount p within =
    let held = value_at user p.scaled_debt in
    let index = p.borrow_index in
    let down = (amount * ray) / index in
    if-holds (λ s. worth (held - s) index + amount ≤ worth held index + index / ray + 1)
      (amount == worth held index) held (taken_scaled down held)
      (λ all. let none_left : held - held ≡ 0 = omega arith in rw none_left (omega (arith, within)))
      (λ _. worth-repaid_slack held down index amount within (floor-near held index amount within))

repaid_all :
    (user amount : ℕ) (p : Pool)
    → amount ≡ balance_of_debt p user
    → value_at user p.scaled_debt - repaid_scaled user amount p ≡ 0
unfolding repaid_scaled
repaid_all user amount p e = ground arith

pub repay_on-within :
    (user amount : ℕ) (p : Pool) → OnSome (RepaysWithin p user amount) (repay_on user amount true p)
unfolding repay_on balance_of_debt
repay_on-within user amount p =
    let held = value_at user p.scaled_debt in
    let scaled = repaid_scaled user amount p in
    OnSome-guard (RepaysWithin p user amount) (ltb (worth held p.borrow_index) amount) _ (λ within.
      OnSome-guard (RepaysWithin p user amount) (ltb p.total_borrow_scaled scaled) _ (λ _.
        rw (value_at-assign_self user (held - scaled) p.scaled_debt) (
          ground arith,
          repaid-within user amount p,
          repaid_all user amount p,
          refl,
          repaid-near user amount p (ground arith),
        )))
