-- ===== src/Reads/Feeds/Laws.antt =====
-- A market's feed and price are read off its own oracle, whatever the other markets' shapes.
use ghoststake.Prelude.{ℕ, ◌+◌, ◌≡◌, refl, Option, none, some, List, [], ◌∷◌, map, or_else}
use ghoststake.Text.{Text}
use ghoststake.Markets.{Market}
use ghoststake.Reads.{Fn, Call, ReadResult, as_string}
use ghoststake.Reads.Batch.{Map, set_some, IsFrom, IsFrom-start, IsFrom-head, IsFrom-tail}
use ghoststake.Reads.Feeds.{
  MarketFeed, zero_address, oracle_calls, addresses_of, calls_to, feed_entry, feeds_loop,
  feeds_by_market,
}

module _ (chain : Call → ReadResult) where
  abbrev pub ask : Fn → Text → ReadResult
  ask f address = chain (record { address = address; function = f })

  abbrev pub own_oracle : Market → Option Text
  own_oracle m = as_string (some (ask Fn.oracle m.address))

  -- The reply of an address that may not have resolved.
  abbrev pub ask_at : Fn → Option Text → ReadResult
  ask_at f address = ask f (or_else address zero_address)

  abbrev pub own_address : Fn → Option Text → Option Text
  own_address f address = as_string (some (ask_at f address))

  -- A market's entry along its own three hops.
  abbrev pub own_feed : Market → Option MarketFeed
  own_feed m =
      let oracle = own_oracle m in
      let feed = own_address Fn.feed oracle in
      feed_entry oracle (own_address Fn.question oracle) (own_address Fn.description feed) feed

  abbrev pub own_feeds : List Market → Map MarketFeed → Map MarketFeed
  own_feeds [] out = out
  own_feeds (m ∷ markets) out = own_feeds markets (set_some m.key (own_feed m) out)

  -- The four batches, in the order of the markets.
  abbrev pub own_oracles : List Market → List (Option Text)
  own_oracles markets = map own_oracle markets

  abbrev pub own_questions : List Market → List ReadResult
  own_questions markets = map (λ m. ask_at Fn.question (own_oracle m)) markets

  abbrev pub own_addresses : List Market → List (Option Text)
  own_addresses markets = map (λ m. own_address Fn.feed (own_oracle m)) markets

  abbrev pub own_descriptions : List Market → List ReadResult
  own_descriptions markets =
      map (λ m. ask_at Fn.description (own_address Fn.feed (own_oracle m))) markets

  feeds_loop-own :
      (oracles feeds : List (Option Text)) (questions descriptions : List ReadResult)
      → (markets : List Market) (i : ℕ) (out : Map MarketFeed)
      → IsFrom oracles i (own_oracles markets)
      → IsFrom questions i (own_questions markets)
      → IsFrom feeds i (own_addresses markets)
      → IsFrom descriptions i (own_descriptions markets)
      → feeds_loop oracles (some questions) (some descriptions) feeds markets i out
        ≡ own_feeds markets out
  feeds_loop-own oracles feeds questions descriptions [] i out h q g d = refl
  feeds_loop-own oracles feeds questions descriptions (m ∷ ms) i out h q g d =
      let rest =
        feeds_loop-own oracles feeds questions descriptions ms (i + 1)
          (set_some m.key (own_feed m) out)
          (IsFrom-tail oracles i (own_oracle m) (own_oracles ms) h)
          (IsFrom-tail questions i (ask_at Fn.question (own_oracle m)) (own_questions ms) q)
          (IsFrom-tail feeds i (own_address Fn.feed (own_oracle m)) (own_addresses ms) g)
          (IsFrom-tail descriptions i (ask_at Fn.description (own_address Fn.feed (own_oracle m)))
            (own_descriptions ms) d) in
      rw
        (
          IsFrom-head oracles i (own_oracles (m ∷ ms)) h,
          IsFrom-head questions i (own_questions (m ∷ ms)) q,
          IsFrom-head feeds i (own_addresses (m ∷ ms)) g,
          IsFrom-head descriptions i (own_descriptions (m ∷ ms)) d,
        )
        rest

  pub addresses_of-oracles :
      (markets : List Market)
      → addresses_of (some (map chain (oracle_calls markets))) ≡ own_oracles markets
  unfolding addresses_of oracle_calls
  addresses_of-oracles [] = refl
  addresses_of-oracles (m ∷ ms) = rw (addresses_of-oracles ms) refl

  questions-own :
      (markets : List Market)
      → map chain (calls_to Fn.question (own_oracles markets)) ≡ own_questions markets
  unfolding calls_to
  questions-own [] = refl
  questions-own (m ∷ ms) = rw (questions-own ms) refl

  addresses_of-feeds :
      (markets : List Market)
      → addresses_of (some (map chain (calls_to Fn.feed (own_oracles markets))))
        ≡ own_addresses markets
  unfolding addresses_of calls_to
  addresses_of-feeds [] = refl
  addresses_of-feeds (m ∷ ms) = rw (addresses_of-feeds ms) refl

  descriptions-own :
      (markets : List Market)
      → map chain (calls_to Fn.description (own_addresses markets)) ≡ own_descriptions markets
  unfolding calls_to
  descriptions-own [] = refl
  descriptions-own (m ∷ ms) = rw (descriptions-own ms) refl

  -- On the replies to the four batches that the hook sends, each built on the one before, the map
  -- gives for a key what the last market with that key answers along its own oracle and feed: a
  -- market that settles a question, or does not resolve, shifts no other market's answer.
  feeds_by_market-own :
      (markets : List Market)
      → let oracles = some (map chain (oracle_calls markets)) in
        let questions = some (map chain (calls_to Fn.question (addresses_of oracles))) in
        let feeds = some (map chain (calls_to Fn.feed (addresses_of oracles))) in
        let descriptions = some (map chain (calls_to Fn.description (addresses_of feeds))) in
        feeds_by_market markets oracles questions feeds descriptions ≡ own_feeds markets (λ k. none)
  unfolding feeds_by_market
  feeds_by_market-own markets =
      rw
        (
          addresses_of-oracles markets,
          addresses_of-feeds markets,
          questions-own markets,
          descriptions-own markets,
        )
        (feeds_loop-own (own_oracles markets) (own_addresses markets) (own_questions markets)
          (own_descriptions markets) markets 0 (λ k. none) (IsFrom-start (own_oracles markets))
          (IsFrom-start (own_questions markets)) (IsFrom-start (own_addresses markets))
          (IsFrom-start (own_descriptions markets)))
