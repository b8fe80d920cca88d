-- ===== src/Reads/Rows.antt =====
-- The listed rounds of ghoststake-frontend/src/hooks/useRounds.ts, what a wallet can collect of them
-- (useClaimables.ts), and the chain's word on unclaimed positions (usePositions.ts).
pub mod Laws
use ghoststake.Prelude.{
  ℕ, zero, suc, ◌+◌, ◌*◌, Bool, true, false, not, ◌&&◌, ◌||◌, Option, none, some, List, [], ◌∷◌,
  ◌++◌, map, filter, any, concat_map, filter_some, is_some, or_else, ltb, ◌==◌, if◌then◌else◌,
}
use ghoststake.Text.{Text, to_string}
use ghoststake.Rounds.{Round, Side}
use ghoststake.Markets.{Market}
use ghoststake.MarketList.{MarketRound}
use ghoststake.Claims.{Claimable, lower}
use ghoststake.Positions.{Position, is_unclaimed}
use ghoststake.Reads.{Fn, Call, ReadResult, as_num, as_flag, as_round, as_phase, is_failure}
use ghoststake.Reads.Batch.{reply_at}

abbrev window : ℕ
window = 12

pub record RoundKey : Type 0 where
  pub market : Market
  pub id : ℕ

-- `for (let id = total; id > 0n && taken < WINDOW; id -= 1n, taken += 1)`, with `left` rounds still
-- to take.
abbrev pub keys_from : Market → ℕ → ℕ → List RoundKey
keys_from m zero id = []
keys_from m (suc left) zero = []
keys_from m (suc left) (suc id) = record { market = m; id = suc id } ∷ keys_from m left id

unfoldable pub count_calls : List Market → List Call
count_calls markets = map (λ m. record { address = m.address; function = Fn.round_count }) markets

-- `if (total === undefined || total === 0n) return;`
abbrev pub keys_of : Market → Option ℕ → List RoundKey
keys_of m none = []
keys_of m (some total) = if total == 0 then [] else keys_from m window total

abbrev all_keys_from : Option (List ReadResult) → List Market → ℕ → List RoundKey
all_keys_from counts [] i = []
all_keys_from counts (m ∷ markets) i =
    keys_of m (as_num (reply_at counts i)) ++ all_keys_from counts markets (i + 1)

unfoldable pub round_keys : Option (List ReadResult) → List Market → List RoundKey
round_keys counts markets = all_keys_from counts markets 0

abbrev pub round_calls_of : RoundKey → List Call
round_calls_of k =
    record { address = k.market.address; function = Fn.rounds k.id }
    ∷ record { address = k.market.address; function = Fn.phase_of k.id }
    ∷ []

abbrev pub stake_calls_of : Text → RoundKey → List Call
stake_calls_of address k =
    record { address = k.market.address; function = Fn.stake_of k.id address Side.up }
    ∷ record { address = k.market.address; function = Fn.stake_of k.id address Side.down }
    ∷ record { address = k.market.address; function = Fn.claimable_of k.id address }
    ∷ record { address = k.market.address; function = Fn.claimed k.id address }
    ∷ []

unfoldable pub round_calls : List RoundKey → List Call
round_calls keys = concat_map round_calls_of keys

unfoldable pub stake_calls : Text → List RoundKey → List Call
stake_calls address keys = concat_map (stake_calls_of address) keys

-- A row from its replies, the round first; none while the round is not there.
abbrev pub row_from :
    RoundKey
    → Option Round
    → Option ReadResult
    → Option ReadResult
    → Option ReadResult
    → Option ReadResult
    → Option ReadResult
    → Option MarketRound
row_from k none phase up down claimable claimed = none
row_from k (some r) phase up down claimable claimed = some (record {
  market = k.market;
  id = k.id;
  round = r;
  phase = as_phase phase;
  up = as_num up;
  down = as_num down;
  claimable = as_num claimable;
  is_claimed = as_flag claimed;
})

-- `keys.map(({ market, id }, i) => ...)`, from the i-th key on.
abbrev rows_from :
    List ReadResult → Option (List ReadResult) → List RoundKey → ℕ → List (Option MarketRound)
rows_from rounds positions [] i = []
rows_from rounds positions (k ∷ keys) i =
    row_from k (as_round (reply_at (some rounds) (i * 2))) (reply_at (some rounds) (i * 2 + 1))
      (reply_at positions (i * 4)) (reply_at positions (i * 4 + 1)) (reply_at positions (i * 4 + 2))
      (reply_at positions (i * 4 + 3))
    ∷ rows_from rounds positions keys (i + 1)

unfoldable pub list_rounds :
    List RoundKey → Option (List ReadResult) → Option (List ReadResult) → List MarketRound
list_rounds keys none positions = []
list_rounds keys (some rounds) positions = filter_some (rows_from rounds positions keys 0)

-- `isError` of the hook: wagmi's two errors, or a round read that failed.
unfoldable pub rounds_failed : Bool → Bool → Option (List ReadResult) → Bool
rounds_failed counts_error rounds_error none = counts_error || rounds_error
rounds_failed counts_error rounds_error (some replies) =
    counts_error || (rounds_error || any is_failure replies)

abbrev collectable : MarketRound → Bool
collectable r = ltb 0 (or_else r.claimable 0) && not (or_else r.is_claimed false)

-- `amount: r.claimable!`, on a row whose claimable amount is positive.
abbrev to_claim : MarketRound → Claimable
to_claim r = record { market = r.market.address; round_id = r.id; amount = or_else r.claimable 0 }

unfoldable pub claimables : List MarketRound → List Claimable
claimables rounds = map to_claim (filter collectable rounds)

-- `roundKey`
unfoldable pub round_key : Position → Text
round_key p = map lower p.round.market ++ b':' ∷ to_string p.round.id

abbrev pub confirm_calls_of : Text → Position → List Call
confirm_calls_of address p =
    record { address = p.round.market; function = Fn.claimable_of p.round.id address }
    ∷ record { address = p.round.market; function = Fn.claimed p.round.id address }
    ∷ []

unfoldable pub pending_positions : List Position → List Position
pending_positions positions = filter is_unclaimed positions

abbrev pub confirmed_entry : Position → Option ℕ → Option Bool → List (Text × ℕ)
unfolding round_key
confirmed_entry p (some claimable) (some claimed) =
    (round_key p, if claimed then 0 else claimable) ∷ []
confirmed_entry p _ _ = []

abbrev confirmed_from : List ReadResult → List Position → ℕ → List (Text × ℕ)
confirmed_from reads [] i = []
confirmed_from reads (p ∷ ps) i =
    confirmed_entry p (as_num (reply_at (some reads) (i * 2)))
      (as_flag (reply_at (some reads) (i * 2 + 1)))
    ++ confirmed_from reads ps (i + 1)

-- The entries of `confirmed` in the order in which they are set.
unfoldable pub confirmed_claims : List Position → Option (List ReadResult) → List (Text × ℕ)
confirmed_claims positions none = []
confirmed_claims positions (some reads) = confirmed_from reads (pending_positions positions) 0
