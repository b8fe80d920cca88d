-- ===== src/StockVault.antt =====
-- Loans against stock tokens: deposit, withdraw, borrow and repay (and `Liquidation`) of
-- ghoststake-contracts/src/StockLoanVault.sol, on the lending pool that it borrows from. A revert is
-- `none` and changes nothing. The tokens are parameters, as in the pool: `moves` is whether a transfer
-- succeeds. The feeds and the multipliers of the stock tokens are other projects' contracts, and are
-- what they answer at the time of the call. Accounts and tokens are numbers.
-- Numbers are unbounded: a call whose values pass 2^256 reverts, and is left out.
pub mod Loans
pub mod Limits
pub mod Covered
pub mod Repaid
pub mod Liquidation
use ghoststake.Prelude.{
  ℕ, zero, suc, ◌+◌, ◌-◌, ◌*◌, ◌/◌, ◌^◌, Bool, true, false, not, ◌||◌, ◌&&◌, Option, none, some,
  List, [], ◌∷◌, ltb, leb, ◌==◌, if◌then◌else◌, any,
}
use ghoststake.Prelude.Int.{ℤ, pos, negsuc}
use ghoststake.Rounds.{wad}
use ghoststake.Pool.{
  Pool, Curve, Caller, accrue, balance_of_debt, mul_div_up, min, borrow as pool_borrow,
  repay as pool_repay,
}

pub record Collateral : Type 0 where
  pub token : ℕ
  pub max_ltv : ℕ
  pub liquidation_threshold : ℕ
  pub liquidation_bonus : ℕ
  pub max_age : ℕ
  pub liquidation_max_age : ℕ
  pub scaled_ui : Bool
  pub token_decimals : ℕ
  pub feed_decimals : ℕ

-- What the constructor fixes.
pub record Setup : Type 0 where
  pub curve : Curve
  pub collaterals : List Collateral
  pub stable_decimals : ℕ
  pub origination_fee : ℕ
  pub close_factor : ℕ

-- `latestRoundData` of the feed of a token, and its `uiMultiplier`.
pub record Feeds : Type 0 where
  pub answer : ℕ → ℤ
  pub updated_at : ℕ → ℕ
  pub multiplier : ℕ → ℕ

-- `collateral_of user token`
pub record Vault : Type 0 where
  pub pool : Pool
  pub collateral_of : ℕ → ℕ → ℕ

pub record Visit : Type 0 where
  pub sender : ℕ
  pub entries_open : Bool
  pub pool_open : Bool
  pub now : ℕ

-- The vault as the pool's caller: it is the borrow module.
abbrev pub as_module : Visit → Caller
as_module m = record {
  sender = 0;
  is_owner = false;
  is_module = true;
  entries_open = m.pool_open;
  now = m.now;
}

abbrev positive : ℤ → Option ℕ
positive (pos zero) = none
positive (pos (suc n)) = some (suc n)
positive (negsuc n) = none

unfoldable pub price : Feeds → ℕ → Collateral → ℕ → Option ℕ
price f now c max_age =
    let updated_at = f.updated_at c.token in
    if updated_at == 0
    then none
    else if ltb now updated_at
    then none
    else if ltb max_age (now - updated_at)
    then none
    else positive (f.answer c.token)

abbrev pub multiplier_of : Feeds → Collateral → ℕ
multiplier_of f c = if c.scaled_ui then f.multiplier c.token else wad

abbrev pub worth_at : Feeds → Setup → Collateral → ℕ → ℕ → ℕ
worth_at f s c amount price =
    ((amount * multiplier_of f c) / wad * (price * 10 ^ s.stable_decimals))
    / 10 ^ (c.token_decimals + c.feed_decimals)

abbrev priced : Feeds → Setup → Collateral → ℕ → Option ℕ → Option ℕ
priced f s c amount none = none
priced f s c amount (some p) = some (worth_at f s c amount p)

unfoldable pub value : Feeds → Setup → ℕ → Collateral → ℕ → ℕ → Option ℕ
unfolding price
value f s now c amount max_age =
    if amount == 0 then some 0 else priced f s c amount (price f now c max_age)

pub record Totals : Type 0 where
  pub value : ℕ
  pub borrow_limit : ℕ
  pub liquidation_line : ℕ

abbrev pub add_value : Totals → Collateral → ℕ → Totals
add_value t c v = record {
  value = t.value + v;
  borrow_limit = t.borrow_limit + (v * c.max_ltv) / wad;
  liquidation_line = t.liquidation_line + (v * c.liquidation_threshold) / wad;
}

abbrev pub age_for : Bool → Collateral → ℕ
age_for for_liquidation c = if for_liquidation then c.liquidation_max_age else c.max_age

-- One round of the loop of `_totals`; a price that cannot be used reverts it.
abbrev pub add_collateral : Option Totals → Collateral → ℕ → Option ℕ → Option Totals
add_collateral none c amount v = none
add_collateral (some t) c amount none = if amount == 0 then some t else none
add_collateral (some t) c amount (some v) = if amount == 0 then some t else some (add_value t c v)

unfoldable pub totals_from :
    Feeds → Setup → ℕ → Bool → (ℕ → ℕ) → Option Totals → List Collateral → Option Totals
totals_from f s now for_liquidation amount_of t [] = t
totals_from f s now for_liquidation amount_of t (c ∷ cs) =
    let amount = amount_of c.token in
    totals_from f s now for_liquidation amount_of
      (add_collateral t c amount (value f s now c amount (age_for for_liquidation c))) cs

unfoldable pub totals : Feeds → Setup → ℕ → Bool → (ℕ → ℕ) → Option Totals
unfolding totals_from
totals f s now for_liquidation amount_of =
    totals_from f s now for_liquidation amount_of
      (some (record { value = 0; borrow_limit = 0; liquidation_line = 0 })) s.collaterals

-- `_get`: whether the token is one that the vault takes.
abbrev pub is_known : Setup → ℕ → Bool
is_known s token = any (λ (c : Collateral). c.token == token) s.collaterals

abbrev pub set_collateral : Vault → ℕ → ℕ → ℕ → Vault
set_collateral v user token amount = record {
  pool = v.pool;
  collateral_of = λ u t. if u == user && t == token then amount else v.collateral_of u t;
}

unfoldable pub deposit : Setup → Visit → ℕ → ℕ → Bool → Vault → Option Vault
deposit s m token amount moves v =
    if not m.entries_open
    then none
    else if amount == 0
    then none
    else if not (is_known s token)
    then none
    else if not moves
    then none
    else some (set_collateral v m.sender token (v.collateral_of m.sender token + amount))

-- What follows `pool.accrue()`.
abbrev pub with_pool : Option Pool → (Pool → Option Vault) → Option Vault
with_pool none f = none
with_pool (some p) f = f p

abbrev pub with_totals : Option Totals → (Totals → Option Vault) → Option Vault
with_totals none f = none
with_totals (some t) f = f t

abbrev pub on_pool : Vault → Option Pool → Option Vault
on_pool v none = none
on_pool v (some p) = some (record v { pool = p })

-- The check of a withdrawal, on the collateral that is left.
unfoldable pub still_covered : Feeds → Setup → Visit → Vault → Pool → Option Vault
still_covered f s m v p =
    let debt = balance_of_debt p m.sender in
    if debt == 0
    then some (record v { pool = p })
    else with_totals (totals f s m.now false (v.collateral_of m.sender))
        (λ t. if ltb t.borrow_limit debt then none else some (record v { pool = p }))

unfoldable pub withdraw : Feeds → Setup → Visit → ℕ → ℕ → Bool → Vault → Option Vault
withdraw f s m token amount moves v =
    let held = v.collateral_of m.sender token in
    let v' = set_collateral v m.sender token (held - amount) in
    if amount == 0
    then none
    else if not (is_known s token)
    then none
    else if ltb held amount
    then none
    else if not moves
    then none
    else with_pool (accrue s.curve m.now v.pool) (still_covered f s m v')

abbrev pub fee_on : Setup → ℕ → ℕ
fee_on s amount = mul_div_up amount s.origination_fee wad

unfoldable pub borrow_within : Setup → Visit → ℕ → Vault → Pool → Totals → Option Vault
borrow_within s m amount v p t =
    if ltb t.borrow_limit (balance_of_debt p m.sender + amount + fee_on s amount)
    then none
    else on_pool v (pool_borrow s.curve (as_module m) (amount + fee_on s amount) m.sender p)

unfoldable pub borrow : Feeds → Setup → Visit → ℕ → Vault → Option Vault
borrow f s m amount v =
    if not m.entries_open
    then none
    else if amount == 0
    then none
    else with_pool (accrue s.curve m.now v.pool) (λ p.
      with_totals (totals f s m.now false (v.collateral_of m.sender))
        (borrow_within s m amount v p))

unfoldable pub repay_on : Setup → Visit → ℕ → ℕ → Bool → Vault → Pool → Option Vault
repay_on s m amount on_behalf_of moves v p =
    let debt = balance_of_debt p on_behalf_of in
    let paid = min debt amount in
    if debt == 0
    then none
    else if paid == 0
    then none
    else on_pool v (pool_repay s.curve (as_module m) paid on_behalf_of moves p)

unfoldable pub repay : Setup → Visit → ℕ → ℕ → Bool → Vault → Option Vault
repay s m amount on_behalf_of moves v =
    with_pool (accrue s.curve m.now v.pool) (repay_on s m amount on_behalf_of moves v)
