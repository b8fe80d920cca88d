-- ===== src/Reads/Feeds.antt =====
-- Where each market's price comes from (ghoststake-frontend/src/hooks/useMarketFeeds.ts) and what it
-- is now (useSpot.ts).
pub mod Laws
pub mod Spots
use ghoststake.Prelude.{
  ℕ, ◌+◌, Bool, true, false, ◌||◌, Option, none, some, List, [], ◌∷◌, map, get_elem?, or_else, ltb,
  ◌==◌, if◌then◌else◌,
}
use ghoststake.Text.{Text, codes}
use ghoststake.Nav.{starts_with}
use ghoststake.Markets.{Market}
use ghoststake.Reads.{Fn, Call, ReadResult, as_string, as_latest, as_updated_at}
use ghoststake.Reads.Batch.{reply_at, Map, set_some}

abbrev demo_marker : Text
demo_marker = codes "GHOSTSTAKE DEMO FEED"

abbrev pub zero_address : Text
zero_address = codes "0x0000000000000000000000000000000000000000"

-- `t.includes(part)`
includes : Text → Text → Bool
includes part [] = starts_with [] part
includes part (c ∷ t) = starts_with (c ∷ t) part || includes part t

pub record MarketFeed : Type 0 where
  pub description : Text
  pub is_demo : Bool
  pub is_question : Bool
  pub oracle : Option Text
  pub feed : Option Text

-- A string that is there and not empty, as `if (s)` has it.
abbrev pub truthy : Option Text → Option Text
truthy none = none
truthy (some []) = none
truthy (some (c ∷ t)) = some (c ∷ t)

unfoldable pub oracle_calls : List Market → List Call
oracle_calls markets = map (λ m. record { address = m.address; function = Fn.oracle }) markets

-- `(data ?? []).map((r) => r.result as `0x${string}` | undefined)`
unfoldable pub addresses_of : Option (List ReadResult) → List (Option Text)
addresses_of none = []
addresses_of (some replies) = map (λ r. as_string (some r)) replies

-- One call to each address; an address that did not resolve is asked as the zero address, so that
-- the batch keeps its length.
unfoldable pub calls_to : Fn → List (Option Text) → List Call
calls_to f addresses =
    map (λ a. record { address = or_else a zero_address; function = f }) addresses

-- `addresses[i]`
abbrev pub address_at : List (Option Text) → ℕ → Option Text
address_at addresses i = or_else (get_elem? addresses i) none

unfoldable pub priced_feed : Text → Option Text → Option Text → Option MarketFeed
unfolding includes
priced_feed oracle none feed = none
priced_feed oracle (some description) feed = some (record {
  description = description;
  is_demo = includes demo_marker description;
  is_question = false;
  oracle = some oracle;
  feed = feed;
})

-- The entry of a market, from its oracle, its question, its feed's description and its feed.
unfoldable pub feed_entry :
    Option Text → Option Text → Option Text → Option Text → Option MarketFeed
unfolding priced_feed
feed_entry oracle question description feed = elim (truthy oracle) [
  | none ↦ none
  | some o ↦ elim (truthy question) [
    | none ↦ priced_feed o description feed
    | some q ↦ some (record {
      description = q;
      is_demo = false;
      is_question = true;
      oracle = some o;
      feed = none;
    })
  ]
]

abbrev pub feeds_loop :
    List (Option Text)
    → Option (List ReadResult)
    → Option (List ReadResult)
    → List (Option Text)
    → List Market
    → ℕ
    → Map MarketFeed
    → Map MarketFeed
feeds_loop oracles questions descriptions feeds [] i out = out
feeds_loop oracles questions descriptions feeds (m ∷ markets) i out =
    feeds_loop oracles questions descriptions feeds markets (i + 1) (
      set_some m.key
        (feed_entry (address_at oracles i) (as_string (reply_at questions i))
          (as_string (reply_at descriptions i)) (address_at feeds i))
        out)

-- `byMarket` of `useMarketFeeds`, from the replies to the batches on oracles, questions, feeds and
-- descriptions.
unfoldable pub feeds_by_market :
    List Market
    → Option (List ReadResult)
    → Option (List ReadResult)
    → Option (List ReadResult)
    → Option (List ReadResult)
    → Map MarketFeed
feeds_by_market markets oracles questions feeds descriptions =
    feeds_loop (addresses_of oracles) questions descriptions (addresses_of feeds) markets 0
      (λ k. none)

pub record Spot : Type 0 where
  pub price : ℕ
  pub usable : Bool
  pub updated_at : Option ℕ

-- `feeds?.get(m.key)?.feed ?? ZERO`
abbrev pub feed_address : Option (Map MarketFeed) → Market → Text
feed_address none m = zero_address
feed_address (some feeds) m = elim (feeds m.key) [
  | none ↦ zero_address
  | some f ↦ or_else f.feed zero_address
]

-- `result?.[2] ?? 0n`
abbrev pub round_of : Option (Bool × ℕ × ℕ) → ℕ
round_of none = 0
round_of (some (usable, price, id)) = id

abbrev pub print_calls_from :
    Option (Map MarketFeed) → Option (List ReadResult) → List Market → ℕ → List Call
print_calls_from feeds latest [] i = []
print_calls_from feeds latest (m ∷ markets) i =
    record {
      address = feed_address feeds m;
      function = Fn.get_round_data (round_of (as_latest (reply_at latest i)));
    }
    ∷ print_calls_from feeds latest markets (i + 1)

unfoldable pub print_calls :
    Option (Map MarketFeed) → Option (List ReadResult) → List Market → List Call
print_calls feeds latest markets = print_calls_from feeds latest markets 0

-- A zero time is no time.
abbrev pub printed_at : Option ℕ → Option ℕ
printed_at none = none
printed_at (some t) = if ltb 0 t then some t else none

abbrev spot_priced : Option (Bool × ℕ × ℕ) → Option ℕ → Option Spot
spot_priced none updated_at = none
spot_priced (some (usable, price, id)) updated_at =
    if price == 0
    then none
    else some (record { price = price; usable = usable; updated_at = printed_at updated_at })

unfoldable pub spot_entry : Option Text → Option (Bool × ℕ × ℕ) → Option ℕ → Option Spot
spot_entry oracle latest updated_at = elim (truthy oracle) [
  | none ↦ none
  | some o ↦ spot_priced latest updated_at
]

abbrev pub spots_loop :
    List (Option Text)
    → Option (List ReadResult)
    → Option (List ReadResult)
    → List Market
    → ℕ
    → Map Spot
    → Map Spot
spots_loop oracles latest prints [] i out = out
spots_loop oracles latest prints (m ∷ markets) i out =
    spots_loop oracles latest prints markets (i + 1) (
      set_some m.key
        (spot_entry (address_at oracles i) (as_latest (reply_at latest i))
          (as_updated_at (reply_at prints i)))
        out)

-- `byMarket` of `useSpot`.
unfoldable pub spots_by_market :
    List Market
    → Option (List ReadResult)
    → Option (List ReadResult)
    → Option (List ReadResult)
    → Map Spot
spots_by_market markets oracles latest prints =
    spots_loop (addresses_of oracles) latest prints markets 0 (λ k. none)
