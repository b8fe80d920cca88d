-- ===== src/Reads/Feeds/Spots.antt =====
-- A market's price and its time are read off its own oracle and feed.
use ghoststake.Prelude.{ℕ, ◌+◌, ◌≡◌, refl, Option, none, some, List, [], ◌∷◌, map}
use ghoststake.Text.{Text}
use ghoststake.Markets.{Market}
use ghoststake.Reads.{Fn, Call, ReadResult, as_latest, as_updated_at}
use ghoststake.Reads.Batch.{Map, set_some, IsFrom, IsFrom-start, IsFrom-head, IsFrom-tail}
use ghoststake.Reads.Feeds.{
  MarketFeed, Spot, oracle_calls, addresses_of, calls_to, feed_address, round_of, print_calls_from,
  print_calls, spot_entry, spots_loop, spots_by_market,
}
use ghoststake.Reads.Feeds.Laws.{own_oracle, own_oracles, ask, ask_at, addresses_of-oracles}

module _ (chain : Call → ReadResult) (feeds : Option (Map MarketFeed)) where
  abbrev pub own_latest : Market → ReadResult
  own_latest m = ask_at chain Fn.read_latest (own_oracle chain m)

  -- The feed's round that the latest price came from.
  abbrev pub own_print : Market → ReadResult
  own_print m =
      ask chain (Fn.get_round_data (round_of (as_latest (some (own_latest m)))))
        (feed_address feeds m)

  abbrev pub own_spot : Market → Option Spot
  own_spot m =
      spot_entry (own_oracle chain m) (as_latest (some (own_latest m)))
        (as_updated_at (some (own_print m)))

  abbrev pub own_spots : List Market → Map Spot → Map Spot
  own_spots [] out = out
  own_spots (m ∷ markets) out = own_spots markets (set_some m.key (own_spot m) out)

  abbrev pub own_latests : List Market → List ReadResult
  own_latests markets = map own_latest markets

  abbrev pub own_prints : List Market → List ReadResult
  own_prints markets = map own_print markets

  spots_loop-own :
      (oracles : List (Option Text)) (latest prints : List ReadResult)
      → (markets : List Market) (i : ℕ) (out : Map Spot)
      → IsFrom oracles i (own_oracles chain markets)
      → IsFrom latest i (own_latests markets)
      → IsFrom prints i (own_prints markets)
      → spots_loop oracles (some latest) (some prints) markets i out ≡ own_spots markets out
  spots_loop-own oracles latest prints [] i out h l p = refl
  spots_loop-own oracles latest prints (m ∷ ms) i out h l p =
      let rest =
        spots_loop-own oracles latest prints ms (i + 1) (set_some m.key (own_spot m) out)
          (IsFrom-tail oracles i (own_oracle chain m) (own_oracles chain ms) h)
          (IsFrom-tail latest i (own_latest m) (own_latests ms) l)
          (IsFrom-tail prints i (own_print m) (own_prints ms) p) in
      rw
        (
          IsFrom-head oracles i (own_oracles chain (m ∷ ms)) h,
          IsFrom-head latest i (own_latests (m ∷ ms)) l,
          IsFrom-head prints i (own_prints (m ∷ ms)) p,
        )
        rest

  latests-own :
      (markets : List Market)
      → map chain (calls_to Fn.read_latest (own_oracles chain markets)) ≡ own_latests markets
  unfolding calls_to
  latests-own [] = refl
  latests-own (m ∷ ms) = rw (latests-own ms) refl

  prints_from-own :
      (latest : List ReadResult) (markets : List Market) (i : ℕ)
      → IsFrom latest i (own_latests markets)
      → map chain (print_calls_from feeds (some latest) markets i) ≡ own_prints markets
  prints_from-own latest [] i l = refl
  prints_from-own latest (m ∷ ms) i l =
      rw
        (
          prints_from-own latest ms (i + 1)
              (IsFrom-tail latest i (own_latest m) (own_latests ms) l),
          IsFrom-head latest i (own_latests (m ∷ ms)) l,
        )
        refl

  -- On the replies to the three batches that the hook sends, the map gives for a key the price that
  -- the last market with that key answers through its own oracle, with the time of the print that
  -- its own feed gives for the round of that price.
  pub spots_by_market-own :
      (markets : List Market)
      → let oracles = some (map chain (oracle_calls markets)) in
        let latest = some (map chain (calls_to Fn.read_latest (addresses_of oracles))) in
        let prints = some (map chain (print_calls feeds latest markets)) in
        spots_by_market markets oracles latest prints ≡ own_spots markets (λ k. none)
  unfolding spots_by_market print_calls
  spots_by_market-own markets =
      rw
        (
          addresses_of-oracles chain markets,
          latests-own markets,
          prints_from-own (own_latests markets) markets 0 (IsFrom-start (own_latests markets)),
        )
        (spots_loop-own (own_oracles chain markets) (own_latests markets) (own_prints markets)
          markets 0 (λ k. none) (IsFrom-start (own_oracles chain markets))
          (IsFrom-start (own_latests markets)) (IsFrom-start (own_prints markets)))
