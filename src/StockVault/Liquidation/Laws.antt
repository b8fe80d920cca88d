-- ===== src/StockVault/Liquidation/Laws.antt =====
-- Who can be liquidated, and for how much.
use native.Mathlib.Nat.{div-lt_iff_lt-mul}
use ghoststake.Prelude.{
  ℕ, ◌+◌, ◌-◌, ◌*◌, ◌/◌, ◌^◌, ◌≤◌, ◌<◌, ◌≡◌, refl, ◌∙◌, Bool, true, false, not, Option, none, some,
  ltb, leb, ◌==◌, or_else, find?, arith, div-mul-le, div-le_of_lt, mul_mono, pow-pos, guard-eq,
  guard-false, OnSome-eq, if-holds,
}
use ghoststake.Rounds.{wad}
use ghoststake.Pool.{ray, Pool, accrue, balance_of_debt, min, repay as pool_repay}
use ghoststake.Pool.Trips.{accrue-IsAt, accrue_again, repay-inv}
use ghoststake.Pool.Rounding.{RepaysWithin, repay_on-within}
use ghoststake.StockVault.{
  Vault, Setup, Feeds, Visit, Collateral, Totals, totals, price, multiplier_of, worth_at,
  set_collateral, as_module,
}
use ghoststake.StockVault.Covered.{with_pool-inv, with_totals-inv, on_pool-inv}
use ghoststake.StockVault.Liquidation.{
  with_number, with_collateral, tokens_at, tokens_priced, tokens_for, health_of, factor_for,
  max_repay, with_bonus, seize, liquidate_on, liquidate,
}

-- A health factor below one is a debt above the line.
line-lt-debt :
    (debt : ℕ) (t : Totals)
    → (debt == 0) ≡ false
    → leb wad (health_of debt t) ≡ false
    → t.liquidation_line < debt
line-lt-debt debt t some_debt h =
    let low : (t.liquidation_line * wad) / debt < wad = ground arith in
    let pos_debt : 0 < debt = ground arith in
    let below : t.liquidation_line * wad < wad * debt = (div-lt_iff_lt-mul pos_debt).0 low in
    omega (arith, below)

share-le-whole : (debt factor : ℕ) → factor ≤ wad → (debt * factor) / wad ≤ debt
share-le-whole debt factor h =
    let le : factor * debt ≤ wad * debt = mul_mono factor wad debt h in
    div-le_of_lt debt (debt * factor) wad (omega arith) (omega (arith, le))

factor-le :
    (s : Setup) (c : Collateral) (health : ℕ) → s.close_factor ≤ wad → factor_for s c health ≤ wad
factor-le s c health h =
    if-holds (λ (n : ℕ). n ≤ wad)
      (ltb health ((c.liquidation_threshold * (wad + c.liquidation_bonus)) / wad)) wad
      s.close_factor (λ _. omega arith) (λ _. h)

-- What tokens for an amount are worth at the same price.
tokens_at-worth :
    (f : Feeds) (s : Setup) (c : Collateral) (amount p tokens taken : ℕ)
    → tokens_at f s c amount p ≡ some tokens
    → taken ≤ tokens
    → worth_at f s c taken p ≤ amount
tokens_at-worth f s c amount p tokens taken h within =
    let mult = multiplier_of f c in
    let rate = p * 10 ^ s.stable_decimals in
    let whole = 10 ^ (c.token_decimals + c.feed_decimals) in
    let shares = (amount * whole) / rate in
    let is_tokens : some ((shares * wad) / mult) ≡ some tokens = guard-eq (mult == 0) _ h in
    let bought : tokens ≡ (shares * wad) / mult = ground arith in
    let a : tokens * mult ≤ shares * wad = rw bought (div-mul-le (shares * wad) mult) in
    let b : taken * mult ≤ tokens * mult = mul_mono taken tokens mult within in
    let few : (taken * mult) / wad ≤ shares =
      div-le_of_lt shares (taken * mult) wad (omega arith) (omega (arith, a, b)) in
    let d : ((taken * mult) / wad) * rate ≤ shares * rate =
      mul_mono ((taken * mult) / wad) shares rate few in
    let e : shares * rate ≤ amount * whole = div-mul-le (amount * whole) rate in
    let some_whole : 0 < whole = pow-pos (c.token_decimals + c.feed_decimals) in
    div-le_of_lt amount (((taken * mult) / wad) * rate) whole some_whole
      (omega (arith, d, e, some_whole))

with_number-inv :
    (o : Option ℕ) (f : ℕ → Option Vault) (w : Vault)
    → with_number o f ≡ some w
    → (n : ℕ) × (o ≡ some n) × (f n ≡ some w)
with_number-inv none f w h = cc
with_number-inv (some n) f w h = (n, refl, h)

with_collateral-inv :
    (o : Option Collateral) (f : Collateral → Option Vault) (w : Vault)
    → with_collateral o f ≡ some w
    → (c : Collateral) × (o ≡ some c) × (f c ≡ some w)
with_collateral-inv none f w h = cc
with_collateral-inv (some c) f w h = (c, refl, h)

tokens_priced-inv :
    (f : Feeds) (s : Setup) (c : Collateral) (amount tokens : ℕ) (o : Option ℕ)
    → tokens_priced f s c amount o ≡ some tokens
    → (p : ℕ) × (o ≡ some p) × (tokens_at f s c amount p ≡ some tokens)
tokens_priced-inv f s c amount tokens none h = cc
tokens_priced-inv f s c amount tokens (some p) h = (p, refl, h)

set_collateral_self :
    (v : Vault) (user token amount : ℕ)
    → (set_collateral v user token amount).collateral_of user token ≡ amount
set_collateral_self v user token amount = ground arith

min-le : (a b : ℕ) → (min a b ≤ a) × (min a b ≤ b)
min-le a b = ground arith

-- What a repayment does to the debt, up to what one scaled unit is worth and one, and to the pool's money.
abbrev pub Repays : Pool → Pool → (user amount : ℕ) → Type 0
Repays p q user amount =
    (balance_of_debt p user ≤ balance_of_debt q user + amount)
    × (balance_of_debt q user + amount ≤ balance_of_debt p user + p.borrow_index / ray + 1)
    × (q.cash ≡ p.cash + amount)

repaid-debt :
    (s : Setup) (m : Visit) (user amount : ℕ) (p q : Pool)
    → p.last_accrual_time ≡ m.now
    → pool_repay s.curve (as_module m) amount user true p ≡ some q
    → Repays p q user amount
repaid-debt s m user amount p q now h =
    let into =
      repay-inv s.curve (as_module m) amount p p q (accrue_again s.curve m.now p now) user h in
    let w = OnSome-eq (RepaysWithin p user amount) _ q (repay_on-within user amount p) into in
    (w.1, w.4, w.3)

-- A seizure takes the tokens, or all that is held where that is less, and repays the amount.
seized :
    (s : Setup) (m : Visit) (v w : Vault) (p : Pool) (user token repaid tokens : ℕ) (moves : Bool)
    → p.last_accrual_time ≡ m.now
    → seize s m v p user token repaid tokens moves ≡ some w
    → Repays p w.pool user repaid
      × (w.collateral_of user token
          ≡ v.collateral_of user token - min tokens (v.collateral_of user token))
unfolding seize
seized s m v w p user token repaid tokens moves now h =
    let held = v.collateral_of user token in
    let taken = min tokens held in
    let left = set_collateral v user token (held - taken) in
    let (q, e, same, kept) =
      on_pool-inv left _ w (guard-eq (not moves) _ (guard-eq (held == 0) _ h)) in
    let debt = repaid-debt s m user repaid p q now e in
    let now_held : w.collateral_of user token ≡ held - taken =
      (λ i. kept i user token) ∙ set_collateral_self v user token (held - taken) in
    ((rw same debt), now_held)

-- What a liquidation repays and takes: the price that it goes by, and the tokens for what is repaid.
pub record Takes (f : Feeds) (s : Setup) (m : Visit) (v w : Vault) (user : ℕ) (c : Collateral)
    (p : Pool) (most repaid : ℕ) : Type 0 where
  pub rate : ℕ
  pub tokens : ℕ
  pub is_rate : price f m.now c c.liquidation_max_age ≡ some rate
  pub is_tokens : tokens_for f s m.now c (with_bonus c repaid) ≡ some tokens
  pub within : repaid ≤ most
  pub repays : Repays p w.pool user repaid
  pub left :
      w.collateral_of user c.token
      ≡ v.collateral_of user c.token - min tokens (v.collateral_of user c.token)
  pub worth :
      worth_at f s c (v.collateral_of user c.token - w.collateral_of user c.token) rate
      ≤ with_bonus c repaid

-- A liquidation of an account: the collateral, the accrued pool, the totals and the most that may be
-- repaid. An `amount` of `none` asks for the most.
pub record Liquidates (f : Feeds) (s : Setup) (m : Visit) (v w : Vault) (user token : ℕ)
    (amount : Option ℕ) : Type 0 where
  pub c : Collateral
  pub p : Pool
  pub t : Totals
  pub most : ℕ
  pub is_c : find? (λ (d : Collateral). d.token == token) s.collaterals ≡ some c
  pub is_p : accrue s.curve m.now v.pool ≡ some p
  pub is_t : totals f s m.now true (v.collateral_of user) ≡ some t
  pub is_most : max_repay s c (balance_of_debt p user) t ≡ some most
  pub below : t.liquidation_line < balance_of_debt p user
  pub most_within : most ≤ balance_of_debt p user
  pub takes : Takes f s m v w user c p most (or_else amount most)

module _ (f : Feeds) (s : Setup) (m : Visit) (v w : Vault) (user : ℕ) where
  most_repaid :
      (c : Collateral) (debt most : ℕ) (t : Totals)
      → s.close_factor ≤ wad
      → max_repay s c debt t ≡ some most
      → (t.liquidation_line < debt) × (most ≤ debt)
  unfolding max_repay
  most_repaid c debt most t close h =
      let some_debt : (debt == 0) ≡ false = guard-false (debt == 0) _ h in
      let h' = guard-eq (debt == 0) _ h in
      let low : leb wad (health_of debt t) ≡ false =
        guard-false (leb wad (health_of debt t)) _ h' in
      let is_most : some ((debt * factor_for s c (health_of debt t)) / wad) ≡ some most =
        guard-eq (leb wad (health_of debt t)) _ h' in
      let le =
        share-le-whole debt (factor_for s c (health_of debt t))
          (factor-le s c (health_of debt t) close) in
      (line-lt-debt debt t some_debt low, ground (arith, le))

  taken :
      (c : Collateral) (p : Pool) (amount : Option ℕ) (moves : Bool) (most : ℕ)
      → p.last_accrual_time ≡ m.now
      → liquidate_on f s m user amount moves v c p most ≡ some w
      → Takes f s m v w user c p most (or_else amount most)
  unfolding liquidate_on tokens_for
  taken c p amount moves most now h =
      let repaid = or_else amount most in
      let h' = guard-eq (repaid == 0) _ h in
      let within : ltb most repaid ≡ false = guard-false (ltb most repaid) _ h' in
      let (tokens, e, k) = with_number-inv _ _ w (guard-eq (ltb most repaid) _ h') in
      let (rate, g, bought) = tokens_priced-inv f s c (with_bonus c repaid) tokens _ e in
      let (paid, left) = seized s m v w p user c.token repaid tokens moves now k in
      let bounds = min-le tokens (v.collateral_of user c.token) in
      record {
        rate = rate;
        tokens = tokens;
        is_rate = g;
        is_tokens = e;
        within = ground arith;
        repays = paid;
        left = left;
        worth =
            tokens_at-worth f s c (with_bonus c repaid) rate tokens _ bought
              (omega (arith, left, bounds.0, bounds.1));
      }

  -- With a close factor of at most one, a liquidation that goes through is of an account whose
  -- accrued debt is above its liquidation line. It repays the amount asked for, or all that maxRepay
  -- allows where the most is asked for; that is never more than maxRepay allows, which is at most
  -- the debt. The pool holds that much more, and the debt falls by no more than that, and by no
  -- less but for what one scaled unit is worth and one. It takes the tokens that tokensFor gives
  -- for what is repaid and its bonus, or all that is held where that is less, and they are worth no
  -- more than that at the price that it goes by.
  pub liquidate-Liquidates :
      (token : ℕ) (amount : Option ℕ) (moves : Bool)
      → s.close_factor ≤ wad
      → liquidate f s m user token amount moves v ≡ some w
      → Liquidates f s m v w user token amount
  unfolding liquidate
  liquidate-Liquidates token amount moves close h =
      let (c, is_c, h1) =
        with_collateral-inv (find? (λ (d : Collateral). d.token == token) s.collaterals) _ w h in
      let (p, is_p, h2) = with_pool-inv (accrue s.curve m.now v.pool) _ w h1 in
      let (t, is_t, h3) = with_totals-inv (totals f s m.now true (v.collateral_of user)) _ w h2 in
      let (most, is_most, h4) = with_number-inv (max_repay s c (balance_of_debt p user) t) _ w h3 in
      let (line, within) = most_repaid c (balance_of_debt p user) most t close is_most in
      record {
        c = c;
        p = p;
        t = t;
        most = most;
        is_c = is_c;
        is_p = is_p;
        is_t = is_t;
        is_most = is_most;
        below = line;
        most_within = within;
        takes = taken c p amount moves most (accrue-IsAt s.curve m.now v.pool p is_p) h4;
      }
