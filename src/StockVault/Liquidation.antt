-- ===== src/StockVault/Liquidation.antt =====
-- Liquidation and the write-off of bad debt, of ghoststake-contracts/src/StockLoanVault.sol. The
-- liquidator's fee to the treasury passes the vault by. `moves` is whether all the transfers of a call
-- go through, as they do where it makes none.
pub mod Laws
pub mod WriteOff
use ghoststake.Prelude.{
  ℕ, ◌+◌, ◌-◌, ◌*◌, ◌/◌, ◌^◌, Bool, true, false, not, ◌&&◌, Option, none, some, List, [], ◌∷◌, ltb,
  leb, ◌==◌, if◌then◌else◌, or_else, find?, any,
}
use ghoststake.Rounds.{wad}
use ghoststake.Pool.{Pool, accrue, balance_of_debt, min, repay as pool_repay, absorb_bad_debt}
use ghoststake.StockVault.{
  Vault, Setup, Feeds, Visit, Collateral, Totals, totals, price, multiplier_of, set_collateral,
  with_pool, with_totals, on_pool, as_module,
}

-- What follows on a number that may revert.
abbrev pub with_number : Option ℕ → (ℕ → Option Vault) → Option Vault
with_number none f = none
with_number (some n) f = f n

abbrev pub with_collateral : Option Collateral → (Collateral → Option Vault) → Option Vault
with_collateral none f = none
with_collateral (some c) f = f c

-- The tokens that an amount of the stable buys at a price; a multiplier of zero reverts.
abbrev pub tokens_at : Feeds → Setup → Collateral → ℕ → ℕ → Option ℕ
tokens_at f s c stable_amount price =
    if multiplier_of f c == 0
    then none
    else some (
        ((stable_amount * 10 ^ (c.token_decimals + c.feed_decimals))
          / (price * 10 ^ s.stable_decimals)
          * wad)
        / multiplier_of f c)

abbrev pub tokens_priced : Feeds → Setup → Collateral → ℕ → Option ℕ → Option ℕ
tokens_priced f s c stable_amount none = none
tokens_priced f s c stable_amount (some p) = tokens_at f s c stable_amount p

unfoldable pub tokens_for : Feeds → Setup → ℕ → Collateral → ℕ → Option ℕ
tokens_for f s now c stable_amount =
    tokens_priced f s c stable_amount (price f now c c.liquidation_max_age)

abbrev pub health_of : ℕ → Totals → ℕ
health_of debt t = (t.liquidation_line * wad) / debt

-- Below this health factor the whole debt may be repaid.
abbrev pub factor_for : Setup → Collateral → ℕ → ℕ
factor_for s c health =
    if ltb health ((c.liquidation_threshold * (wad + c.liquidation_bonus)) / wad)
    then wad
    else s.close_factor

unfoldable pub max_repay : Setup → Collateral → ℕ → Totals → Option ℕ
max_repay s c debt t =
    if debt == 0
    then none
    else if leb wad (health_of debt t)
    then none
    else some ((debt * factor_for s c (health_of debt t)) / wad)

abbrev pub with_bonus : Collateral → ℕ → ℕ
with_bonus c amount = amount + (amount * c.liquidation_bonus) / wad

-- Past the amount, which is within what may be repaid.
unfoldable pub seize :
    Setup → Visit → Vault → Pool → (user token repaid tokens : ℕ) → Bool → Option Vault
seize s m v p user token repaid tokens moves =
    let held = v.collateral_of user token in
    let seized = min tokens held in
    if held == 0
    then none
    else if not moves
    then none
    else on_pool (set_collateral v user token (held - seized))
        (pool_repay s.curve (as_module m) repaid user true p)

unfoldable pub liquidate_on :
    Feeds → Setup → Visit → ℕ → Option ℕ → Bool → Vault → Collateral → Pool → ℕ → Option Vault
liquidate_on f s m user amount moves v c p most =
    let repaid = or_else amount most in
    if repaid == 0
    then none
    else if ltb most repaid
    then none
    else with_number (tokens_for f s m.now c (with_bonus c repaid))
        (λ tokens. seize s m v p user c.token repaid tokens moves)

-- `amount` is `none` for `type(uint256).max`.
unfoldable pub liquidate :
    Feeds → Setup → Visit → (user token : ℕ) → Option ℕ → Bool → Vault → Option Vault
liquidate f s m user token amount moves v =
    with_collateral (find? (λ (c : Collateral). c.token == token) s.collaterals) (λ c.
      with_pool (accrue s.curve m.now v.pool) (λ p.
        with_totals (totals f s m.now true (v.collateral_of user)) (λ t.
          with_number (max_repay s c (balance_of_debt p user) t)
            (liquidate_on f s m user amount moves v c p))))

abbrev max : ℕ → ℕ → ℕ
max a b = if ltb a b then b else a

-- The largest bonus of the collaterals that the account holds.
abbrev pub bonus_from : (ℕ → ℕ) → ℕ → List Collateral → ℕ
bonus_from amount_of bonus [] = bonus
bonus_from amount_of bonus (c ∷ cs) =
    bonus_from amount_of (if amount_of c.token == 0 then bonus else max bonus c.liquidation_bonus)
      cs

unfoldable pub price_of_everything : Setup → (ℕ → ℕ) → ℕ → ℕ
price_of_everything s amount_of value = (value * wad) / (wad + bonus_from amount_of 0 s.collaterals)

unfoldable pub hand_over : List Collateral → ℕ → Vault → Vault
hand_over [] user v = v
hand_over (c ∷ cs) user v = hand_over cs user (set_collateral v user c.token 0)

abbrev pub repaid_if : Setup → Visit → ℕ → ℕ → Bool → Pool → Option Pool
repaid_if s m payment user moves p =
    if payment == 0 then some p else pool_repay s.curve (as_module m) payment user moves p

abbrev pub then_absorb : Setup → Visit → ℕ → Option Pool → Option Pool
then_absorb s m user none = none
then_absorb s m user (some p) = absorb_bad_debt s.curve (as_module m) user p

unfoldable pub write_off_on : Setup → Visit → ℕ → Bool → Vault → Pool → Totals → Option Vault
write_off_on s m user moves v p t =
    let debt = balance_of_debt p user in
    let payment = price_of_everything s (v.collateral_of user) t.value in
    if debt == 0
    then none
    else if leb debt t.value
    then none
    else if not moves
    then none
    else on_pool (hand_over s.collaterals user v)
        (then_absorb s m user (repaid_if s m payment user moves p))

unfoldable pub write_off_bad_debt : Feeds → Setup → Visit → ℕ → Bool → Vault → Option Vault
write_off_bad_debt f s m user moves v = with_pool (accrue s.curve m.now v.pool) (λ p.
    with_totals (totals f s m.now true (v.collateral_of user)) (write_off_on s m user moves v p))
