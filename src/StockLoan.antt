-- ===== src/StockLoan.antt =====
-- The stock-loan vault's previews (ghoststake-frontend/src/lib/stockLoan.ts). Amounts, values and
-- rates come from the vault as unsigned integers; a value that has not loaded is `none`.
pub mod Borrow
pub mod Withdraw
use ghoststake.Prelude.{
  ℕ, zero, suc, ◌+◌, ◌-◌, ◌*◌, ◌/◌, ◌^◌, Bool, true, false, ◌&&◌, Option, none, some, List, [], ◌∷◌,
  filter, ltb, leb, ◌==◌, if◌then◌else◌, or_else,
}
use ghoststake.Text.{Text}
use ghoststake.Rounds.{wad}

pub record StockCollateral : Type 0 where
  pub token : Text
  pub symbol : Text
  pub name : Text
  pub decimals : ℕ
  pub max_ltv : ℕ
  pub liquidation_threshold : ℕ
  pub liquidation_bonus : ℕ
  pub max_age : ℕ
  pub liquidation_max_age : ℕ
  pub wallet : Option ℕ
  pub allowance : Option ℕ
  pub deposited : Option ℕ
  pub value_per_token : Option ℕ
  pub updated_at : Option ℕ

unfoldable pub value_of_amount : StockCollateral → ℕ → Option ℕ
value_of_amount c amount = elim c.value_per_token [
  | none ↦ none
  | some v ↦ some ((amount * v) / 10 ^ c.decimals)
]

pub record Summary : Type 0 where
  pub value : ℕ
  pub borrow_limit : ℕ
  pub liquidation_line : ℕ
  pub incomplete : Bool

-- `!c.deposited`: not loaded, or zero.
abbrev pub held : StockCollateral → ℕ
held c = or_else c.deposited 0

-- One round of the loop of `summarise`.
unfoldable pub add_collateral : Summary → StockCollateral → Summary
unfolding value_of_amount
add_collateral s c = if held c == 0 then s else elim (value_of_amount c (held c)) [
  | none ↦ record s { incomplete = true }
  | some v ↦ record {
    value = s.value + v;
    borrow_limit = s.borrow_limit + (v * c.max_ltv) / wad;
    liquidation_line = s.liquidation_line + (v * c.liquidation_threshold) / wad;
    incomplete = s.incomplete;
  }
]

unfoldable pub summarise_from : Summary → List StockCollateral → Summary
summarise_from s [] = s
summarise_from s (c ∷ cs) = summarise_from (add_collateral s c) cs

unfoldable pub summarise : List StockCollateral → Summary
unfolding summarise_from add_collateral
summarise collaterals =
    summarise_from
      (record { value = 0; borrow_limit = 0; liquidation_line = 0; incomplete = false }) collaterals

unfoldable pub price_age : StockCollateral → Option ℕ → Option ℕ
price_age c none = none
price_age c (some now) = elim c.updated_at [
  | none ↦ none
  | some updated_at ↦ some (if ltb updated_at now then now - updated_at else 0)
]

unfoldable pub is_stale : Option ℕ → StockCollateral → Bool
unfolding price_age
is_stale now c =
    if held c == 0
    then false
    else elim (price_age c now) [ none ↦ false | some age ↦ ltb c.max_age age ]

unfoldable pub stale_prices : List StockCollateral → Option ℕ → List StockCollateral
unfolding is_stale
stale_prices collaterals now = filter (is_stale now) collaterals

unfoldable pub origination_fee_on : ℕ → ℕ → ℕ
origination_fee_on amount fee = (amount * fee + wad - 1) / wad

-- The `while` loop of `maxBorrow`; it takes one off `x` in each round.
unfoldable pub trim : ℕ → ℕ → ℕ → ℕ
trim room fee zero = zero
trim room fee (suc x) =
    let less = trim room fee x in
    if ltb room (suc x + origination_fee_on (suc x) fee) then less else suc x

unfoldable pub max_borrow : ℕ → ℕ → ℕ → ℕ
max_borrow limit debt fee =
    let room = limit - debt in
    let most = trim room fee ((room * wad) / (wad + fee)) in if leb limit debt then 0 else most

-- `withdraw_room` is the part of `maxWithdraw` past its early returns.
abbrev withdraw_room : StockCollateral → ℕ → ℕ → ℕ
withdraw_room c v room =
    let tokens = (room * wad * 10 ^ c.decimals) / (v * c.max_ltv) in
    if ltb tokens (held c) then tokens else held c

abbrev withdraw_priced : StockCollateral → Option ℕ → ℕ → ℕ → ℕ
withdraw_priced c none limit debt = 0
withdraw_priced c (some v) limit debt =
    if v == 0
    then 0
    else if c.max_ltv == 0
    then 0
    else if leb limit debt
    then 0
    else withdraw_room c v (limit - debt)

-- `debt` is `none` or zero where there is no loan.
unfoldable pub max_withdraw : StockCollateral → Summary → Option ℕ → ℕ
max_withdraw c summary debt =
    let owed = or_else debt 0 in
    if owed == 0 then held c else withdraw_priced c c.value_per_token summary.borrow_limit owed

unfoldable pub health_after : Summary → ℕ → Option ℕ
health_after summary debt =
    if debt == 0 then none else some ((summary.liquidation_line * wad) / debt)
