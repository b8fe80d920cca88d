-- ===== src/StockVault/Limits.antt =====
-- The screen's figures of the collateral against the vault's own.
use native.Mathlib.Nat.{mul-div_cancel, le_of_mul-le-mul_right}
use ghoststake.Prelude.{
  ℕ, ◌+◌, ◌-◌, ◌*◌, ◌/◌, ◌^◌, ◌≤◌, ◌<◌, ◌≡◌, refl, sym, true, false, Option, none, some, List, [],
  ◌∷◌, ltb, ◌==◌, if◌then◌else◌, arith, div-mul-le, le-div_of_mul, div_mono, mul_mono, pow-pos,
  Bool-cases, inl, inr, guard-eq, ◌∙◌, ap, if-holds, Option-cases,
}
use ghoststake.Rounds.{wad}
use ghoststake.StockLoan.{
  StockCollateral, Summary, value_of_amount, add_collateral as add_shown, summarise_from, summarise,
}
use ghoststake.StockVault.{
  Setup, Feeds, Collateral, Totals, price, value, multiplier_of, worth_at, priced, positive, totals,
  totals_from, add_collateral, age_for,
}

-- A share of a floor is at most the floor of the share.
share-le :
    (amount unit rate whole : ℕ)
    → 0 < unit
    → 0 < whole
    → (amount * ((unit * rate) / whole)) / unit ≤ (amount * rate) / whole
share-le amount unit rate whole some_unit some_whole =
    let per_unit = (unit * rate) / whole in
    let x = (amount * per_unit) / unit in
    let a : x * unit ≤ amount * per_unit = div-mul-le (amount * per_unit) unit in
    let b : per_unit * whole ≤ unit * rate = div-mul-le (unit * rate) whole in
    let c : (x * unit) * whole ≤ (amount * per_unit) * whole =
      mul_mono (x * unit) (amount * per_unit) whole a in
    let d : (per_unit * whole) * amount ≤ (unit * rate) * amount =
      mul_mono (per_unit * whole) (unit * rate) amount b in
    let g : (x * whole) * unit ≤ (amount * rate) * unit = omega (arith, c, d) in
    le-div_of_mul x (amount * rate) whole some_whole (le_of_mul-le-mul_right g some_unit)

-- The price is the answer of the feed, whatever age is allowed.
price_of_answer :
    (f : Feeds) (now : ℕ) (c : Collateral) (max_age p : ℕ)
    → price f now c max_age ≡ some p
    → positive (f.answer c.token) ≡ some p
unfolding price
price_of_answer f now c max_age p h =
    guard-eq (ltb max_age (now - f.updated_at c.token)) _
      (guard-eq (ltb now (f.updated_at c.token)) _ (guard-eq (f.updated_at c.token == 0) _ h))

price_same :
    (f : Feeds) (now : ℕ) (c : Collateral) (a b p q : ℕ)
    → price f now c a ≡ some p
    → price f now c b ≡ some q
    → p ≡ q
price_same f now c a b p q h k =
    let h' = price_of_answer f now c a p h in let k' = price_of_answer f now c b q k in cc

priced-eq :
    (f : Feeds) (s : Setup) (c : Collateral) (amount v : ℕ) (o : Option ℕ)
    → priced f s c amount o ≡ some v
    → (p : ℕ) × (o ≡ some p) × (v ≡ worth_at f s c amount p)
priced-eq f s c amount v none h = cc
priced-eq f s c amount v (some p) h = (p, refl, ground arith)

-- The value of an amount above zero is at a price.
value_priced :
    (f : Feeds) (s : Setup) (now : ℕ) (c : Collateral) (amount max_age v : ℕ)
    → (amount == 0) ≡ false
    → value f s now c amount max_age ≡ some v
    → (p : ℕ) × (price f now c max_age ≡ some p) × (v ≡ worth_at f s c amount p)
unfolding value
value_priced f s now c amount max_age v z h =
    priced-eq f s c amount v (price f now c max_age) (rw z at h)

-- Where the multiplier is one, a value is a plain share.
worth_at-plain :
    (f : Feeds) (s : Setup) (c : Collateral) (amount p : ℕ)
    → multiplier_of f c ≡ wad
    → worth_at f s c amount p
      ≡ (amount * (p * 10 ^ s.stable_decimals)) / 10 ^ (c.token_decimals + c.feed_decimals)
worth_at-plain f s c amount p one = rw (one, mul-div_cancel amount {n = wad} (omega arith)) refl

-- What the screen has of a collateral of an account is what the chain says.
pub record Shows (f : Feeds) (s : Setup) (now : ℕ) (amount_of : ℕ → ℕ) (c : StockCollateral)
    (d : Collateral) : Type 0 where
  pub deposited_read : c.deposited ≡ some (amount_of d.token)
  pub unit_read : c.value_per_token ≡ value f s now d (10 ^ d.token_decimals) (2 ^ 256 - 1)
  pub decimals_read : c.decimals ≡ d.token_decimals
  pub ltv_read : c.max_ltv ≡ d.max_ltv
  pub unscaled : multiplier_of f d ≡ wad

-- The same collaterals in the same order.
abbrev pub ShowsAll : Feeds → Setup → ℕ → (ℕ → ℕ) → List StockCollateral → List Collateral → Type 0
ShowsAll f s now amount_of [] [] = Unit
ShowsAll f s now amount_of [] (d ∷ ds) = ⊥
ShowsAll f s now amount_of (c ∷ cs) [] = ⊥
ShowsAll f s now amount_of (c ∷ cs) (d ∷ ds) =
    Shows f s now amount_of c d × ShowsAll f s now amount_of cs ds

ten_pow-ne : (n : ℕ) → (10 ^ n == 0) ≡ false
ten_pow-ne n = ground (arith, pow-pos n)

-- The screen's value of an amount is at most the vault's.
shown-le :
    (f : Feeds) (s : Setup) (now : ℕ) (d : Collateral) (amount max_age unit v : ℕ)
    → multiplier_of f d ≡ wad
    → (amount == 0) ≡ false
    → value f s now d (10 ^ d.token_decimals) (2 ^ 256 - 1) ≡ some unit
    → value f s now d amount max_age ≡ some v
    → (amount * unit) / 10 ^ d.token_decimals ≤ v
shown-le f s now d amount max_age unit v one some_amount h k =
    let (q, e, is_unit) = value_priced f s now d _ _ unit (ten_pow-ne d.token_decimals) h in
    let (p, g, is_v) = value_priced f s now d amount max_age v some_amount k in
    let same = price_same f now d _ max_age q p e g in
    let rate = p * 10 ^ s.stable_decimals in
    let whole = 10 ^ (d.token_decimals + d.feed_decimals) in
    let at_q = worth_at-plain f s d (10 ^ d.token_decimals) q one in
    let unit' : unit ≡ (10 ^ d.token_decimals * rate) / whole =
      is_unit
      ∙ (at_q
          ∙ ap (λ (x : ℕ). (10 ^ d.token_decimals * (x * 10 ^ s.stable_decimals)) / whole) same) in
    let v' : v ≡ (amount * rate) / whole = is_v ∙ worth_at-plain f s d amount p one in
    rw (unit', v')
      (share-le amount (10 ^ d.token_decimals) rate whole (pow-pos d.token_decimals)
        (pow-pos (d.token_decimals + d.feed_decimals)))

-- The screen's limit after one more collateral.
abbrev shown_limit : ℕ → ℕ → Option ℕ → ℕ → ℕ → ℕ
shown_limit limit amount none decimals ltv = limit
shown_limit limit amount (some unit) decimals ltv =
    if amount == 0 then limit else limit + (((amount * unit) / 10 ^ decimals) * ltv) / wad

add_shown-limit :
    (c : StockCollateral) (shown : Summary) (amount : ℕ)
    → c.deposited ≡ some amount
    → (add_shown shown c).borrow_limit
      ≡ shown_limit shown.borrow_limit amount c.value_per_token c.decimals c.max_ltv
unfolding add_shown value_of_amount
add_shown-limit c shown amount e = ground arith

-- What the vault's loop adds for a collateral that is held.
added :
    (t u : Totals) (d : Collateral) (amount : ℕ) (o : Option ℕ)
    → (amount == 0) ≡ false
    → add_collateral (some t) d amount o ≡ some u
    → (v : ℕ) × (o ≡ some v) × (u.borrow_limit ≡ t.borrow_limit + (v * d.max_ltv) / wad)
added t u d amount none z h = cc (rw z at h)
added t u d amount (some v) z h = (v, refl, ground arith)

-- And for one that is not.
not_added :
    (t u : Totals) (d : Collateral) (amount : ℕ) (o : Option ℕ)
    → (amount == 0) ≡ true
    → add_collateral (some t) d amount o ≡ some u
    → u.borrow_limit ≡ t.borrow_limit
not_added t u d amount none z h = ground arith
not_added t u d amount (some v) z h = ground arith

shown_limit-le :
    (limit total amount ltv decimals v : ℕ) (o : Option ℕ)
    → limit ≤ total
    → ((unit : ℕ) → o ≡ some unit → (amount * unit) / 10 ^ decimals ≤ v)
    → shown_limit limit amount o decimals ltv ≤ total + (v * ltv) / wad
shown_limit-le limit total amount ltv decimals v none h k = omega arith
shown_limit-le limit total amount ltv decimals v (some unit) h k =
    let x = (amount * unit) / 10 ^ decimals in
    let le = div_mono (x * ltv) (v * ltv) wad (omega arith) (mul_mono x v ltv (k unit refl)) in
    if-holds (λ (n : ℕ). n ≤ total + (v * ltv) / wad) (amount == 0) limit (limit + (x * ltv) / wad)
      (λ _. omega arith) (λ _. omega (arith, le))

shown_limit_zero :
    (limit amount decimals ltv : ℕ) (o : Option ℕ)
    → (amount == 0) ≡ true
    → shown_limit limit amount o decimals ltv ≡ limit
shown_limit_zero limit amount decimals ltv none z = refl
shown_limit_zero limit amount decimals ltv (some unit) z = rw z refl

-- One round of each loop keeps the screen's limit at most the vault's.
module _ (f : Feeds) (s : Setup) (now : ℕ) (amount_of : ℕ → ℕ) where
  add-le :
      (c : StockCollateral) (d : Collateral) (shown : Summary) (t u : Totals)
      → Shows f s now amount_of c d
      → shown.borrow_limit ≤ t.borrow_limit
      → add_collateral
          (some t)
          d
          (amount_of d.token)
          (value f s now d (amount_of d.token) (age_for false d))
        ≡ some u
      → (add_shown shown c).borrow_limit ≤ u.borrow_limit
  add-le c d shown t u w h k =
      let amount = amount_of d.token in
      let screen = add_shown-limit c shown amount w.deposited_read in
      elim (Bool-cases (amount == 0)) [
        | inl z ↦ omega (
          arith,
          screen,
          shown_limit_zero shown.borrow_limit amount c.decimals c.max_ltv c.value_per_token z,
          not_added t u d amount _ z k,
        )
        | inr z ↦
            let (v, e, is_u) = added t u d amount _ z k in
            let le =
              shown_limit-le shown.borrow_limit t.borrow_limit amount d.max_ltv d.token_decimals v
                c.value_per_token h
                (λ unit r.
                  shown-le f s now d amount (age_for false d) unit v w.unscaled z
                    (sym w.unit_read ∙ r) e) in
            let same : shown_limit shown.borrow_limit amount c.value_per_token c.decimals c.max_ltv
                ≡ shown_limit shown.borrow_limit amount c.value_per_token d.token_decimals
                    d.max_ltv =
              rw (w.decimals_read, w.ltv_read) refl in
            omega (arith, screen, same, le, is_u)
      ]

  from_none : (ds : List Collateral) → totals_from f s now false amount_of none ds ≡ none
  unfolding totals_from
  from_none [] = refl
  from_none (d ∷ ds) = from_none ds

  summarise_from-le :
      (cs : List StockCollateral) (ds : List Collateral) (shown : Summary) (t u : Totals)
      → ShowsAll f s now amount_of cs ds
      → shown.borrow_limit ≤ t.borrow_limit
      → totals_from f s now false amount_of (some t) ds ≡ some u
      → (summarise_from shown cs).borrow_limit ≤ u.borrow_limit
  unfolding summarise_from totals_from
  summarise_from-le [] [] shown t u w h k = ground arith
  summarise_from-le [] (d ∷ ds) shown t u w h k = absurd w
  summarise_from-le (c ∷ cs) [] shown t u w h k = absurd w
  summarise_from-le (c ∷ cs) (d ∷ ds) shown t u (w, ws) h k =
      let next =
        add_collateral (some t) d (amount_of d.token)
          (value f s now d (amount_of d.token) (age_for false d)) in
      elim (Option-cases next) [
        | inl e ↦ let stopped : none ≡ some u = sym (from_none ds) ∙ (rw e at k) in cc
        | inr (t', e) ↦
            summarise_from-le cs ds (add_shown shown c) t' u ws (add-le c d shown t t' w h e)
              (rw e at k)
      ]

-- Where what the screen has of each collateral is what the chain says, and no multiplier is other
-- than one, the screen's borrow limit is at most the one that the vault computes.
pub summarise-limit-le :
    (f : Feeds) (s : Setup) (now : ℕ) (amount_of : ℕ → ℕ) (cs : List StockCollateral) (u : Totals)
    → ShowsAll f s now amount_of cs s.collaterals
    → totals f s now false amount_of ≡ some u
    → (summarise cs).borrow_limit ≤ u.borrow_limit
unfolding summarise totals
summarise-limit-le f s now amount_of cs u w h =
    summarise_from-le f s now amount_of cs s.collaterals _ _ u w (omega arith) h
