-- ===== src/StockLoan/Withdraw.antt =====
-- The offered withdrawal against the vault's own check, which reads the limit of what is left.
use native.Mathlib.Nat.{le_of_mul-le-mul_right, zero-div}
use ghoststake.Prelude.{
  ℕ, ◌+◌, ◌-◌, ◌*◌, ◌/◌, ◌^◌, ◌≤◌, ◌<◌, ◌≡◌, ◌∙◌, none, some, List, [], ◌∷◌, ◌++◌, arith,
  div-mul-le, lt-div_suc-mul, mul_mono, pow-pos,
}
use ghoststake.Rounds.{wad}
use ghoststake.StockLoan.{
  StockCollateral, Summary, value_of_amount, held, add_collateral, summarise_from, summarise,
  max_withdraw,
}

-- What one collateral adds to the borrow limit.
abbrev limit_of : StockCollateral → ℕ → ℕ
limit_of c amount = elim (value_of_amount c amount) [ none ↦ 0 | some v ↦ (v * c.max_ltv) / wad ]

abbrev limits : List StockCollateral → ℕ
limits [] = 0
limits (c ∷ cs) = limit_of c (held c) + limits cs

limit_of-zero : (c : StockCollateral) → limit_of c 0 ≡ 0
unfolding value_of_amount
limit_of-zero c = ground (arith, zero-div (10 ^ c.decimals))

add_collateral-limit :
    (s : Summary) (c : StockCollateral)
    → (add_collateral s c).borrow_limit ≡ s.borrow_limit + limit_of c (held c)
unfolding add_collateral
add_collateral-limit s c = ground (arith, limit_of-zero c)

summarise_from-limits :
    (s : Summary) (cs : List StockCollateral)
    → (summarise_from s cs).borrow_limit ≡ s.borrow_limit + limits cs
unfolding summarise_from
summarise_from-limits s [] = omega arith
summarise_from-limits s (c ∷ cs) =
    omega (arith, summarise_from-limits (add_collateral s c) cs, add_collateral-limit s c)

summarise-limits : (cs : List StockCollateral) → (summarise cs).borrow_limit ≡ limits cs
unfolding summarise
summarise-limits cs = omega (arith, summarise_from-limits _ cs)

limits-append : (xs ys : List StockCollateral) → limits (xs ++ ys) ≡ limits xs + limits ys
limits-append [] ys = omega arith
limits-append (x ∷ xs) ys = omega (arith, limits-append xs ys)

-- Taking `t` tokens and leaving `k` loses at most one unit of limit more than the exact `room`:
-- the value is cut once and its share once again.
loss-le :
    (k t price unit ltv room : ℕ)
    → 0 < unit
    → ltv ≤ wad
    → t * (price * ltv) ≤ room * wad * unit
    → (((k + t) * price) / unit * ltv) / wad ≤ ((k * price) / unit * ltv) / wad + room + 1
loss-le k t price unit ltv room u l small =
    let before = ((k + t) * price) / unit in
    let after = (k * price) / unit in
    let a : before * unit ≤ (k + t) * price = div-mul-le ((k + t) * price) unit in
    let b : k * price < (after + 1) * unit = lt-div_suc-mul (k * price) unit u in
    let c : before * unit * ltv ≤ ((after + 1) * unit + t * price) * ltv =
      mul_mono (before * unit) ((after + 1) * unit + t * price) ltv (omega arith) in
    let d : before * ltv * unit ≤ (after * ltv + ltv + room * wad) * unit = omega arith in
    let e : before * ltv ≤ after * ltv + ltv + room * wad = le_of_mul-le-mul_right d u in
    let f : (before * ltv) / wad * wad ≤ before * ltv = div-mul-le (before * ltv) wad in
    let g : after * ltv < ((after * ltv) / wad + 1) * wad =
      lt-div_suc-mul (after * ltv) wad (omega arith) in
    omega arith

-- The offered amount, priced, is within the room that the debt leaves.
max_withdraw-fits :
    (c : StockCollateral) (s : Summary) (v debt t : ℕ)
    → c.value_per_token ≡ some v
    → 0 < debt
    → 0 < t
    → t ≤ max_withdraw c s (some debt)
    → (t ≤ held c)
      × (debt < s.borrow_limit)
      × (t * (v * c.max_ltv) ≤ (s.borrow_limit - debt) * wad * 10 ^ c.decimals)
unfolding max_withdraw
max_withdraw-fits c s v debt t loaded owed some_of offered =
    let room = s.borrow_limit - debt in
    let most = (room * wad * 10 ^ c.decimals) / (v * c.max_ltv) in
    let small = mul_mono t most (v * c.max_ltv) in
    ground (arith, small, div-mul-le (room * wad * 10 ^ c.decimals) (v * c.max_ltv))

-- The position after `t` of `c` is taken out, beside the other collaterals.
abbrev pub after_withdraw : StockCollateral → ℕ → StockCollateral
after_withdraw c t = record c { deposited = some (held c - t) }

limit_of-priced :
    (c : StockCollateral) (v amount : ℕ)
    → c.value_per_token ≡ some v
    → limit_of c amount ≡ ((amount * v) / 10 ^ c.decimals * c.max_ltv) / wad
unfolding value_of_amount
limit_of-priced c v amount loaded = ground arith

-- The limit that one collateral loses.
limit_of-loss :
    (c : StockCollateral) (v t room : ℕ)
    → c.value_per_token ≡ some v
    → c.max_ltv ≤ wad
    → t ≤ held c
    → t * (v * c.max_ltv) ≤ room * wad * 10 ^ c.decimals
    → limit_of c (held c) ≤ limit_of (after_withdraw c t) (held c - t) + room + 1
limit_of-loss c v t room loaded capped le small =
    let whole : held c - t + t ≡ held c = omega arith in
    let main =
      loss-le (held c - t) t v (10 ^ c.decimals) c.max_ltv room (pow-pos c.decimals) capped small in
    let before = limit_of-priced c v (held c) loaded in
    let after = limit_of-priced (after_withdraw c t) v (held c - t) loaded in
    rw (before, after) (rw whole at main)

-- With a loan, any positive withdrawal up to the offered one, of a token whose price is loaded and
-- whose loan-to-value is at most one, is at most what is held, and the limit of what it leaves is
-- short of the debt by at most one unit of the stablecoin.
pub max_withdraw_shortfall :
    (xs ys : List StockCollateral) (c : StockCollateral) (v debt t : ℕ)
    → c.value_per_token ≡ some v
    → c.max_ltv ≤ wad
    → 0 < debt
    → 0 < t
    → t ≤ max_withdraw c (summarise (xs ++ c ∷ ys)) (some debt)
    → (t ≤ held c) × (debt ≤ (summarise (xs ++ after_withdraw c t ∷ ys)).borrow_limit + 1)
max_withdraw_shortfall xs ys c v debt t loaded capped owed some_of offered =
    let s = summarise (xs ++ c ∷ ys) in
    let (le, room, small) = max_withdraw-fits c s v debt t loaded owed some_of offered in
    let loss = limit_of-loss c v t (s.borrow_limit - debt) loaded capped le small in
    let c' = after_withdraw c t in
    let whole = summarise-limits (xs ++ c ∷ ys) ∙ limits-append xs (c ∷ ys) in
    let rest = summarise-limits (xs ++ c' ∷ ys) ∙ limits-append xs (c' ∷ ys) in (le, omega arith)
