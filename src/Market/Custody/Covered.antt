-- ===== src/Market/Custody/Covered.antt =====
-- What each change of a round's book does to what the round may have to pay.
use ghoststake.Prelude.{
  ℕ, ◌+◌, ◌-◌, ◌≤◌, ◌≡◌, ◌≢◌, refl, ap, ◌∙◌, true, false, List, [], ◌∷◌, arith, Option, none, some,
  inl, inr, ◌⊎◌,
}
use ghoststake.Rounds.{Status, Round, Side, side_pool, wad}
use ghoststake.Market.{Stake, claimable_of, resolve_round}
use ghoststake.Market.Payout.{rake-le}
use ghoststake.Market.Custody.{
  Holding, Book, Terms, Context, holding_of, put, stake_total, winner_of, entered, enter, add_stake,
  add_pool, sink_after, settle_round, rake_on, claimed_book, claimable_by,
}
use ghoststake.Market.Custody.Sums.{
  sum_of, sum_of-put, sum_of-weaken, sum_of-add, sum_of-same, IsWeight, reserved, owed,
  reserved-IsWeight, on_side, payouts-le,
}

-- The pools of a round are the sums of the stakes on its sides.
abbrev pub IsPooled : Book → Type 0
IsPooled b =
    (b.round.up_pool ≡ sum_of (on_side Side.up) b.holdings)
    × (b.round.down_pool ≡ sum_of (on_side Side.down) b.holdings)

stake-IsWeight : (side : Side) → IsWeight (on_side side)
unfolding holding_of
stake-IsWeight Side.up user = refl
stake-IsWeight Side.down user = refl

holding_of-user : (user : ℕ) (hs : List Holding) → (holding_of user hs).user ≡ user
unfolding holding_of
holding_of-user user [] = refl
holding_of-user user (h ∷ hs) = ground (arith, holding_of-user user hs)

-- Putting back what was read of an account, changed, changes the sum by the change.
sum_of-update :
    (w : Holding → ℕ) (user : ℕ) (stake : Stake) (sink : ℕ) (hs : List Holding)
    → IsWeight w
    → let h = holding_of user hs in
      let new : Holding = record { user = h.user; stake = stake; sink = sink } in
      sum_of w (put new hs) + w h ≡ sum_of w hs + w new
sum_of-update w user stake sink hs z =
    let h = holding_of user hs in
    let new : Holding = record { user = h.user; stake = stake; sink = sink } in
    let p = sum_of-put w new hs z in
    let same = ap (λ u. w (holding_of u hs)) (holding_of-user user hs) in omega (arith, p, same)

-- An entry adds its amount to one pool and to the stakes of one account.
entered-IsPooled :
    (b : Book) (user : ℕ) (side : Side) (amount sink : ℕ)
    → IsPooled b
    → IsPooled (entered b (holding_of user b.holdings) side amount sink)
entered-IsPooled b user side amount sink (u, d) =
    let h = holding_of user b.holdings in
    let up =
      sum_of-update (on_side Side.up) user (add_stake h.stake side amount) (sink_after h sink)
        b.holdings (stake-IsWeight Side.up) in
    let down =
      sum_of-update (on_side Side.down) user (add_stake h.stake side amount) (sink_after h sink)
        b.holdings (stake-IsWeight Side.down) in
    ground arith

-- The book `b'` in place of `b` needs what it takes in to cover what it adds to the fees.
abbrev pub IsCovered : Book → Book → ℕ → ℕ → Type 0
IsCovered b b' gained fees = IsPooled b' × (owed b' + fees ≤ owed b + gained)

-- A round that has not ended reserves all of its stakes.
abbrev pub IsRunning : Round → Type 0
IsRunning r = (r.status ≡ Status.opened) ⊎ (r.status ≡ Status.locked)

reserved_running : (r : Round) (h : Holding) → IsRunning r → reserved r h ≡ stake_total h.stake
unfolding reserved
reserved_running r h (inl e) = rw e refl
reserved_running r h (inr e) = rw e refl

reserved_resolved :
    (r : Round) (h : Holding)
    → r.status ≡ Status.resolved
    → reserved r h ≡ claimable_of r (winner_of r) h.stake
unfolding reserved
reserved_resolved r h e = rw e refl

reserved-le :
    (r : Round) (h : Holding) → r.status ≡ Status.void → reserved r h ≤ stake_total h.stake
unfolding reserved claimable_of
reserved-le r h e = ground arith

owed_running :
    (b : Book) → IsRunning b.round → owed b ≡ sum_of (λ h. stake_total h.stake) b.holdings
unfolding owed
owed_running b e = sum_of-same _ _ b.holdings (λ h. reserved_running b.round h e)

total-IsWeight : IsWeight (λ h. stake_total h.stake)
unfolding holding_of
total-IsWeight user = refl

entered-IsCovered :
    (b : Book) (user : ℕ) (side : Side) (amount sink : ℕ)
    → b.round.status ≡ Status.opened
    → IsPooled b
    → IsCovered b (entered b (holding_of user b.holdings) side amount sink) amount 0
entered-IsCovered b user side amount sink e p =
    let h = holding_of user b.holdings in
    let b' = entered b h side amount sink in
    let e' : b'.round.status ≡ Status.opened =
      elim side as (λ s. (add_pool b.round s amount).status ≡ Status.opened) [
        | Side.up ↦ e
        | Side.down ↦ e
      ] in
    let total =
      sum_of-update (λ h. stake_total h.stake) user (add_stake h.stake side amount)
        (sink_after h sink) b.holdings total-IsWeight in
    let before = owed_running b (inl e) in
    let after = owed_running b' (inl e') in
    let added : stake_total (add_stake h.stake side amount) ≡ stake_total h.stake + amount =
      ground arith in
    (entered-IsPooled b user side amount sink p, omega (arith, before, after, total, added))

-- What an entry that goes through has done.
enter-some :
    (t : Terms) (c : Context) (b b' : Book) (user : ℕ) (side : Side) (amount sink : ℕ)
    → enter t c b user side amount sink ≡ some b'
    → (b.round.status ≡ Status.opened)
      × (b' ≡ entered b (holding_of user b.holdings) side amount sink)
unfolding enter
enter-some t c b b' user side amount sink e = ground arith

pub enter-IsCovered :
    (t : Terms) (c : Context) (b b' : Book) (user : ℕ) (side : Side) (amount sink : ℕ)
    → IsPooled b
    → enter t c b user side amount sink ≡ some b'
    → IsCovered b b' amount 0
enter-IsCovered t c b b' user side amount sink p e =
    let (opened, same) = enter-some t c b b' user side amount sink e in
    rw same (entered-IsCovered b user side amount sink opened p)

ended-le :
    (b : Book) (status : Status) (h : Holding)
    → IsRunning b.round
    → (status ≡ Status.void) ⊎ (status ≡ Status.locked)
    → reserved (record b.round { status = status }) h ≤ reserved b.round h
ended-le b status h run_calls ends =
    let before = reserved_running b.round h run_calls in
    elim ends [
      | inl void ↦ omega (arith, before, reserved-le (record b.round { status = status }) h void)
      | inr locked ↦
          omega
            (arith, before, reserved_running (record b.round { status = status }) h (inr locked))
    ]

-- A round that ends owes no more than the stakes that it reserved.
pub status-IsCovered :
    (b : Book) (status : Status)
    → IsRunning b.round
    → (status ≡ Status.void) ⊎ (status ≡ Status.locked)
    → IsPooled b
    → IsCovered b (record b { round = record b.round { status = status } }) 0 0
unfolding owed
status-IsCovered b status run_calls ends p = (
  p,
  omega (
    arith,
    sum_of-weaken (reserved (record b.round { status = status })) (reserved b.round) b.holdings
        (λ h. ended-le b status h run_calls ends),
  ),
)

reserved_claim :
    (b : Book) (h : Holding)
    → h.stake.claimed ≡ false
    → claimable_of b.round (winner_of b.round) h.stake ≢ 0
    → (reserved b.round h ≡ claimable_of b.round (winner_of b.round) h.stake)
      × (reserved b.round (record h { stake = record h.stake { claimed = true } }) ≡ 0)
unfolding reserved claimable_of
reserved_claim b h u p = ground arith

-- A claim takes off what the round owes exactly what it pays.
pub claim-IsCovered :
    (b : Book) (user : ℕ)
    → (holding_of user b.holdings).stake.claimed ≡ false
    → claimable_by b user ≢ 0
    → IsPooled b
    → IsPooled (claimed_book b (holding_of user b.holdings))
      × (owed (claimed_book b (holding_of user b.holdings)) + claimable_by b user ≡ owed b)
unfolding claimable_by owed
claim-IsCovered b user unclaimed positive p =
    let h = holding_of user b.holdings in
    let marked : Stake = record h.stake { claimed = true } in
    let update =
      λ (w : Holding → ℕ) (z : IsWeight w). sum_of-update w user marked h.sink b.holdings z in
    let up = update (on_side Side.up) (stake-IsWeight Side.up) in
    let down = update (on_side Side.down) (stake-IsWeight Side.down) in
    let total = update (reserved b.round) (reserved-IsWeight b.round) in
    let paid = reserved_claim b h unclaimed positive in
    ((omega (arith, p.0, up), omega (arith, p.1, down)), omega (arith, total, paid.0, paid.1))

-- What a settlement that goes through has done.
settle_some :
    (t : Terms) (c : Context) (r r' : Round) (reads : Option ℕ) (fees : ℕ)
    → settle_round t c r reads ≡ some (r', fees)
    → (r.status ≡ Status.locked)
      × (r'.up_pool ≡ r.up_pool)
      × (r'.down_pool ≡ r.down_pool)
      × (((r'.status ≡ Status.void) × (fees ≡ 0))
          ⊎ ((r'.status ≡ Status.resolved)
              × (fees ≡ rake_on r t.rake)
              × (r'.rake_taken ≡ rake_on r t.rake)))
unfolding settle_round resolve_round
settle_some t c r r' none fees e = cc
settle_some t c r r' (some price) fees e = ground arith

pool_of_side :
    (b : Book) (side : Side)
    → IsPooled b
    → side_pool b.round side ≡ sum_of (on_side side) b.holdings
pool_of_side b Side.up p = p.0
pool_of_side b Side.down p = p.1

-- A resolved round owes no more than its pools less the rake.
owed_resolved :
    (b : Book)
    → b.round.status ≡ Status.resolved
    → IsPooled b
    → owed b ≤ b.round.up_pool + b.round.down_pool - b.round.rake_taken
unfolding owed
owed_resolved b e p =
    let side = winner_of b.round in
    let v : Holding → ℕ = λ h. claimable_of b.round side h.stake in
    let same = sum_of-same (reserved b.round) v b.holdings (λ h. reserved_resolved b.round h e) in
    let bound = payouts-le b.round side b.holdings e (pool_of_side b side p) in
    omega (arith, same, bound)

-- A running round reserves exactly its pools.
owed_pools :
    (b : Book) → IsRunning b.round → IsPooled b → owed b ≡ b.round.up_pool + b.round.down_pool
owed_pools b run_calls p =
    let total = sum_of-add (on_side Side.up) (on_side Side.down) b.holdings in
    omega (arith, owed_running b run_calls, total, p.0, p.1)

owed_void :
    (b : Book)
    → b.round.status ≡ Status.void
    → IsPooled b
    → owed b ≤ b.round.up_pool + b.round.down_pool
unfolding owed
owed_void b e p =
    let total = sum_of-add (on_side Side.up) (on_side Side.down) b.holdings in
    let below =
      sum_of-weaken (reserved b.round) (λ h. stake_total h.stake) b.holdings
        (λ h. reserved-le b.round h e) in
    omega (arith, total, below, p.0, p.1)

-- The rake of a settlement and what the round owes after it come out of the pools.
pub settle_round-IsCovered :
    (t : Terms) (c : Context) (b : Book) (r : Round) (reads : Option ℕ) (fees : ℕ)
    → t.rake ≤ wad
    → IsPooled b
    → settle_round t c b.round reads ≡ some (r, fees)
    → IsCovered b (record b { round = r }) 0 fees
settle_round-IsCovered t c b r reads fees low p e =
    let (locked, up, down, ended) = settle_some t c b.round r reads fees e in
    let b' : Book = record b { round = r } in
    let pooled : IsPooled b' = (up ∙ p.0, down ∙ p.1) in
    let before = owed_pools b (inr locked) p in
    (
      pooled,
      elim ended [
        | inl (void, free) ↦ omega (arith, before, owed_void b' void pooled, up, down, free)
        | inr (resolved, charged, taken) ↦
            let within = rake-le (b.round.up_pool + b.round.down_pool) t.rake low in
            omega
              (arith, before, owed_resolved b' resolved pooled, up, down, charged, taken, within)
      ],
    )
