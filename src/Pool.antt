-- ===== src/Pool.antt =====
-- The lending pool (ghoststake-contracts/src/BorrowLiquidityPool.sol). A revert is `none` and changes
-- nothing. The asset is a parameter: a transfer moves exactly its amount, one into the pool succeeds
-- when `pays` says so, and one out of it succeeds when the pool holds enough. Who the owner and the
-- borrow module are and whether entries are open are parts of a call. An account is a number.
-- Numbers are unbounded: a call whose values pass 2^256 reverts, and is left out.
pub mod Entries
pub mod Calls
pub mod Rounding
pub mod Indices
pub mod Books
pub mod Growth
pub mod Trips
use ghoststake.Prelude.{
  ℕ, ◌+◌, ◌-◌, ◌*◌, ◌/◌, ◌^◌, ◌≡◌, Bool, false, not, ◌||◌, Option, none, some, [], ltb, leb, ◌==◌,
  if◌then◌else◌,
}
use ghoststake.Rounds.{wad}
use ghoststake.Pool.Entries.{Mapping, value_at, assign}

abbrev pub ray : ℕ
ray = 10 ^ 27

-- `Math.mulDiv(a, b, c, Math.Rounding.Ceil)`
abbrev pub mul_div_up : ℕ → ℕ → ℕ → ℕ
mul_div_up a b c = (a * b + (c - 1)) / c

-- The curve and the share of the interest that is kept, fixed by the constructor.
pub record Curve : Type 0 where
  pub base_rate_per_second : ℕ
  pub slope1_per_second : ℕ
  pub slope2_per_second : ℕ
  pub kink : ℕ
  pub reserve_factor : ℕ

-- `InvalidCurve`
abbrev pub IsCurve : Curve → Type 0
IsCurve c = (((c.kink == 0) || (leb wad c.kink || leb wad c.reserve_factor)) ≡ false)

-- `cash` is what the asset says the pool holds.
pub record Pool : Type 0 where
  pub supply_index : ℕ
  pub borrow_index : ℕ
  pub last_accrual_time : ℕ
  pub total_supply_scaled : ℕ
  pub total_borrow_scaled : ℕ
  pub total_reserves : ℕ
  pub total_bad_debt : ℕ
  pub unsocialised_bad_debt : ℕ
  pub scaled_supply : Mapping
  pub scaled_debt : Mapping
  pub cash : ℕ

pub record Caller : Type 0 where
  pub sender : ℕ
  pub is_owner : Bool
  pub is_module : Bool
  pub entries_open : Bool
  pub now : ℕ

unfoldable pub total_supplied : Pool → ℕ
total_supplied p = (p.total_supply_scaled * p.supply_index) / ray

unfoldable pub total_borrowed : Pool → ℕ
total_borrowed p = (p.total_borrow_scaled * p.borrow_index) / ray

unfoldable pub balance_of_supply : Pool → ℕ → ℕ
balance_of_supply p user = (value_at user p.scaled_supply * p.supply_index) / ray

unfoldable pub balance_of_debt : Pool → ℕ → ℕ
balance_of_debt p user = (value_at user p.scaled_debt * p.borrow_index) / ray

unfoldable pub utilization : Pool → ℕ
utilization p =
    let borrowed = total_borrowed p in
    if borrowed == 0 then 0 else (borrowed * wad) / (p.cash + borrowed)

unfoldable pub borrow_rate_at : Curve → ℕ → ℕ
borrow_rate_at c u =
    if leb u c.kink
    then c.base_rate_per_second + (c.slope1_per_second * u) / c.kink
    else c.base_rate_per_second
      + c.slope1_per_second
      + (c.slope2_per_second * (u - c.kink)) / (wad - c.kink)

unfoldable pub supply_rate_at : Curve → ℕ → ℕ
supply_rate_at c u = ((borrow_rate_at c u * u) / wad * (wad - c.reserve_factor)) / wad

-- The body of `accrue` past its early return, by the growth of the debts and of the supplies. A
-- growth of zero adds nothing, which is what the source's two tests skip.
unfoldable pub grown : Curve → ℕ → ℕ → ℕ → Pool → Pool
grown c now borrow_growth supply_growth p = record p {
  total_reserves =
      p.total_reserves + ((total_borrowed p * borrow_growth) / wad * c.reserve_factor) / wad;
  borrow_index = p.borrow_index + (p.borrow_index * borrow_growth) / wad;
  supply_index = p.supply_index + (p.supply_index * supply_growth) / wad;
  last_accrual_time = now;
}

abbrev accrued_for : Curve → ℕ → ℕ → Pool → Pool
accrued_for c now elapsed p =
    let u = utilization p in
    if elapsed == 0
    then p
    else grown c now (borrow_rate_at c u * elapsed) (supply_rate_at c u * elapsed) p

-- `block.timestamp - lastAccrualTime` reverts on a time before the last.
unfoldable pub accrue : Curve → ℕ → Pool → Option Pool
accrue c now p =
    if ltb now p.last_accrual_time
    then none
    else some (accrued_for c now (now - p.last_accrual_time) p)

-- What a function does after `accrue()`.
abbrev pub with_accrued : Option Pool → (Pool → Option Pool) → Option Pool
with_accrued none f = none
with_accrued (some p) f = f p

-- What leaves a mapping and its total: all of it where the amount is no less than what is held.
abbrev pub taken_scaled : ℕ → ℕ → ℕ
taken_scaled scaled held = if leb held scaled then held else scaled

-- `total -= scaled`, checked.
abbrev pub less_total : ℕ → ℕ → (ℕ → Option Pool) → Option Pool
less_total total scaled f = if ltb total scaled then none else f (total - scaled)

unfoldable pub supply_on : ℕ → ℕ → Bool → Pool → Option Pool
supply_on sender amount pays p =
    let scaled = (amount * ray) / p.supply_index in
    if not pays
    then none
    else some (record p {
      scaled_supply = assign sender (value_at sender p.scaled_supply + scaled) p.scaled_supply;
      total_supply_scaled = p.total_supply_scaled + scaled;
      cash = p.cash + amount;
    })

unfoldable pub supply : Curve → Caller → ℕ → Bool → Pool → Option Pool
supply c m amount pays p =
    if not m.entries_open
    then none
    else if amount == 0
    then none
    else with_accrued (accrue c m.now p) (supply_on m.sender amount pays)

unfoldable pub withdraw_on : ℕ → ℕ → Pool → Option Pool
withdraw_on sender amount p =
    let held = value_at sender p.scaled_supply in
    let scaled = taken_scaled (mul_div_up amount ray p.supply_index) held in
    if ltb (balance_of_supply p sender) amount
    then none
    else if ltb p.cash amount
    then none
    else less_total p.total_supply_scaled scaled (λ total. some (record p {
      scaled_supply = assign sender (held - scaled) p.scaled_supply;
      total_supply_scaled = total;
      cash = p.cash - amount;
    }))

unfoldable pub withdraw : Curve → Caller → ℕ → Pool → Option Pool
withdraw c m amount p =
    if amount == 0 then none else with_accrued (accrue c m.now p) (withdraw_on m.sender amount)

unfoldable pub borrow_on : ℕ → ℕ → Pool → Option Pool
borrow_on on_behalf_of amount p =
    let scaled = mul_div_up amount ray p.borrow_index in
    if ltb p.cash amount
    then none
    else some (record p {
      scaled_debt =
          assign on_behalf_of (value_at on_behalf_of p.scaled_debt + scaled) p.scaled_debt;
      total_borrow_scaled = p.total_borrow_scaled + scaled;
      cash = p.cash - amount;
    })

unfoldable pub borrow : Curve → Caller → ℕ → ℕ → Pool → Option Pool
borrow c m amount on_behalf_of p =
    if not m.is_module
    then none
    else if not m.entries_open
    then none
    else if amount == 0
    then none
    else with_accrued (accrue c m.now p) (borrow_on on_behalf_of amount)

-- The scaled amount that a repayment clears.
unfoldable pub repaid_scaled : ℕ → ℕ → Pool → ℕ
repaid_scaled on_behalf_of amount p =
    let owed = value_at on_behalf_of p.scaled_debt in
    if amount == balance_of_debt p on_behalf_of
    then owed
    else taken_scaled ((amount * ray) / p.borrow_index) owed

unfoldable pub repay_on : ℕ → ℕ → Bool → Pool → Option Pool
repay_on on_behalf_of amount pays p =
    let debt = balance_of_debt p on_behalf_of in
    let owed = value_at on_behalf_of p.scaled_debt in
    let scaled = repaid_scaled on_behalf_of amount p in
    if ltb debt amount
    then none
    else if not pays
    then none
    else less_total p.total_borrow_scaled scaled (λ total. some (record p {
      scaled_debt = assign on_behalf_of (owed - scaled) p.scaled_debt;
      total_borrow_scaled = total;
      cash = p.cash + amount;
    }))

unfoldable pub repay : Curve → Caller → ℕ → ℕ → Bool → Pool → Option Pool
repay c m amount on_behalf_of pays p =
    if amount == 0
    then none
    else with_accrued (accrue c m.now p) (repay_on on_behalf_of amount pays)

abbrev pub min : ℕ → ℕ → ℕ
min a b = if ltb a b then a else b

-- `next == 0 ? 1 : next`
abbrev pub at_least_one : ℕ → ℕ
at_least_one n = if n == 0 then 1 else n

-- The loss that the reserves did not cover, written off against the suppliers.
unfoldable pub socialise : ℕ → Pool → Pool
socialise remainder p =
    let supplied = total_supplied p in
    let socialised = min remainder supplied in
    if remainder == 0
    then p
    else if supplied == 0
    then record p { unsocialised_bad_debt = p.unsocialised_bad_debt + remainder }
    else record p {
      supply_index = at_least_one ((p.supply_index * (supplied - socialised)) / supplied);
      unsocialised_bad_debt = p.unsocialised_bad_debt + (remainder - socialised);
    }

unfoldable pub absorb_on : ℕ → Pool → Option Pool
unfolding socialise
absorb_on user p =
    let loss = balance_of_debt p user in
    let from_reserves = min loss p.total_reserves in
    if loss == 0
    then none
    else less_total p.total_borrow_scaled (value_at user p.scaled_debt) (λ total.
      let p' = socialise (loss - from_reserves) (record p {
        total_borrow_scaled = total;
        scaled_debt = assign user 0 p.scaled_debt;
        total_reserves = p.total_reserves - from_reserves;
      }) in
      some (record p' { total_bad_debt = p'.total_bad_debt + loss }))

unfoldable pub absorb_bad_debt : Curve → Caller → ℕ → Pool → Option Pool
absorb_bad_debt c m user p =
    if not m.is_module then none else with_accrued (accrue c m.now p) (absorb_on user)

unfoldable pub withdraw_reserves : Caller → ℕ → Pool → Option Pool
withdraw_reserves m amount p =
    if not m.is_owner
    then none
    else if amount == 0
    then none
    else if ltb p.total_reserves amount
    then none
    else if ltb (p.cash - total_supplied p) amount
    then none
    else some (record p { total_reserves = p.total_reserves - amount; cash = p.cash - amount })

-- The pool as it is deployed.
abbrev pub deployed : ℕ → Pool
deployed now = record {
  supply_index = ray;
  borrow_index = ray;
  last_accrual_time = now;
  total_supply_scaled = 0;
  total_borrow_scaled = 0;
  total_reserves = 0;
  total_bad_debt = 0;
  unsocialised_bad_debt = 0;
  scaled_supply = [];
  scaled_debt = [];
  cash = 0;
}
