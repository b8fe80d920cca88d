-- ===== src/Reads/Rows/Laws.antt =====
-- Each listed row holds the replies to its own calls.
use ghoststake.Prelude.{
  ◌≢◌, ◌↔◌, any, ◌==◌, ℕ, zero, suc, ◌+◌, ◌*◌, ◌≤◌, ◌<◌, ◌≡◌, refl, ap, true, Option, some, List,
  [], ◌∷◌, map, arith, All, filter_some, concat_map,
}
use ghoststake.Text.{Text}
use ghoststake.Rounds.{Side}
use ghoststake.Markets.{Market}
use ghoststake.MarketList.{MarketRound}
use ghoststake.Claims.{Claimable}
use ghoststake.Positions.{Position}
use ghoststake.Reads.{Fn, Call, ReadResult, as_num, as_flag, as_round}
use ghoststake.Reads.Batch.{answers, IsFrom, IsFrom-start, IsFrom-head, IsFrom-next}
use ghoststake.Reads.Rows.{
  RoundKey, round_calls_of, stake_calls_of, round_calls, stake_calls, row_from, rows_from,
  list_rounds, claimables, keys_from, keys_of, pending_positions, confirmed_claims, confirmed_from,
  confirmed_entry, confirm_calls_of,
}

-- A row from the chain itself, each field by its own call.
abbrev pub own_row : (Call → ReadResult) → Text → RoundKey → Option MarketRound
own_row chain address k =
    let ask : Fn → Option ReadResult =
      λ f. some (chain (record { address = k.market.address; function = f })) in
    row_from k (as_round (ask (Fn.rounds k.id))) (ask (Fn.phase_of k.id))
      (ask (Fn.stake_of k.id address Side.up)) (ask (Fn.stake_of k.id address Side.down))
      (ask (Fn.claimable_of k.id address)) (ask (Fn.claimed k.id address))

rows_from-own :
    (chain : Call → ReadResult) (address : Text) (rounds positions : List ReadResult)
    (keys : List RoundKey) (i : ℕ)
    → IsFrom rounds (i * 2) (answers chain round_calls_of keys)
    → IsFrom positions (i * 4) (answers chain (stake_calls_of address) keys)
    → rows_from rounds (some positions) keys i ≡ map (own_row chain address) keys
rows_from-own chain address rounds positions [] i h g = refl
rows_from-own chain address rounds positions (k ∷ keys) i h g =
    let rest =
      rows_from-own chain address rounds positions keys (i + 1)
        (IsFrom-next rounds (map chain (round_calls_of k)) (answers chain round_calls_of keys) i 2
          refl h)
        (IsFrom-next positions (map chain (stake_calls_of address k))
          (answers chain (stake_calls_of address) keys) i 4 refl g) in
    rw
      (
        rest,
        IsFrom-head rounds (i * 2) (answers chain round_calls_of (k ∷ keys)) h,
        h 1,
        IsFrom-head positions (i * 4) (answers chain (stake_calls_of address) (k ∷ keys)) g,
        g 1,
        g 2,
        g 3,
      )
      refl

-- On the replies of one block to the two batches that the hook sends, the rows listed are the rounds
-- asked for, each with its own stakes, claimable amount and claimed flag; a round that could not
-- be read takes no other row's place.
pub list_rounds-own :
    (chain : Call → ReadResult) (address : Text) (keys : List RoundKey)
    → list_rounds keys
        (some (map chain (round_calls keys)))
        (some (map chain (stake_calls address keys)))
      ≡ filter_some (map (own_row chain address) keys)
unfolding list_rounds round_calls stake_calls
list_rounds-own chain address keys =
    ap filter_some (rows_from-own chain address _ _ keys 0 (IsFrom-start _) (IsFrom-start _))

-- A claim that the chain would pay now, as it answers: a positive amount, not yet claimed.
abbrev pub IsPayable : (Call → ReadResult) → Text → Claimable → Type 0
IsPayable chain address c =
    let ask : Fn → Option ReadResult =
      λ f. some (chain (record { address = c.market; function = f })) in
    (0 < c.amount)
    × (as_num (ask (Fn.claimable_of c.round_id address)) ≡ some c.amount)
    × (as_flag (ask (Fn.claimed c.round_id address)) ≢ some true)

claimables-own :
    (chain : Call → ReadResult) (address : Text) (keys : List RoundKey)
    → All (IsPayable chain address) (claimables (filter_some (map (own_row chain address) keys)))
unfolding claimables
claimables-own chain address [] = tt
claimables-own chain address (k ∷ keys) =
    let rest = claimables-own chain address keys in ground arith

-- On the replies of one block, every claim that the wallet is offered is one that the chain reports
-- with that amount, which is positive, for that round of that market, and not as claimed.
pub claimables-IsPayable :
    (chain : Call → ReadResult) (address : Text) (keys : List RoundKey)
    → All (IsPayable chain address) (
        claimables (
          list_rounds keys
            (some (map chain (round_calls keys)))
            (some (map chain (stake_calls address keys)))))
claimables-IsPayable chain address keys =
    rw (list_rounds-own chain address keys) (claimables-own chain address keys)

keys_from-within :
    (m : Market) (left id n : ℕ)
    → any (λ k. k.id == n) (keys_from m left id) ≡ true
    → (0 < n) × (n ≤ id) × (id < n + left)
keys_from-within m zero id n h = cc
keys_from-within m (suc left) zero n h = cc
keys_from-within m (suc left) (suc id) n h = ground (arith, keys_from-within m left id n)

keys_from-all :
    (m : Market) (left id n : ℕ)
    → 0 < n
    → n ≤ id
    → id < n + left
    → any (λ k. k.id == n) (keys_from m left id) ≡ true
keys_from-all m zero id n p q r = absurd (omega arith)
keys_from-all m (suc left) zero n p q r = absurd (omega arith)
keys_from-all m (suc left) (suc id) n p q r = ground (arith, keys_from-all m left id n p)

keys_of-suc : (m : Market) (total : ℕ) → keys_of m (some (suc total)) ≡ keys_from m 12 (suc total)
keys_of-suc m total = ground arith

-- Of a market whose count of rounds has been read, the hook asks for exactly the newest twelve, and
-- for no round zero.
keys_of_iff :
    (m : Market) (total n : ℕ)
    → (any (λ k. k.id == n) (keys_of m (some total)) ≡ true)
      ↔ ((0 < n) × (n ≤ total) × (total < n + 12))
keys_of_iff m zero n = (λ h. cc, λ h. absurd (omega arith))
keys_of_iff m (suc total) n =
    rw (keys_of-suc m total) (
      λ h. keys_from-within m 12 (suc total) n h,
      λ h. keys_from-all m 12 (suc total) n h.0 h.1 h.2,
    )

abbrev pub own_confirmed : (Call → ReadResult) → Text → Position → List (Text × ℕ)
own_confirmed chain address p =
    let ask : Fn → Option ReadResult =
      λ f. some (chain (record { address = p.round.market; function = f })) in
    confirmed_entry p (as_num (ask (Fn.claimable_of p.round.id address)))
      (as_flag (ask (Fn.claimed p.round.id address)))

confirmed_from-own :
    (chain : Call → ReadResult) (address : Text) (reads : List ReadResult) (ps : List Position)
    (i : ℕ)
    → IsFrom reads (i * 2) (answers chain (confirm_calls_of address) ps)
    → confirmed_from reads ps i ≡ concat_map (own_confirmed chain address) ps
confirmed_from-own chain address reads [] i h = refl
confirmed_from-own chain address reads (p ∷ ps) i h =
    let rest = confirmed_from-own chain address reads ps (i + 1) (
      IsFrom-next reads (map chain (confirm_calls_of address p))
        (answers chain (confirm_calls_of address) ps) i 2 refl h) in
    rw (rest, IsFrom-head reads (i * 2) (answers chain (confirm_calls_of address) (p ∷ ps)) h, h 1)
      refl

-- On the replies of one block, the map that the claim buttons read holds for each unclaimed position
-- the chain's own word on it, zero where it is claimed, and nothing where the chain has not
-- answered both questions.
pub confirmed_claims-own :
    (chain : Call → ReadResult) (address : Text) (ps : List Position)
    → confirmed_claims ps (some (answers chain (confirm_calls_of address) (pending_positions ps)))
      ≡ concat_map (own_confirmed chain address) (pending_positions ps)
unfolding confirmed_claims
confirmed_claims-own chain address ps =
    confirmed_from-own chain address _ (pending_positions ps) 0 (IsFrom-start _)
