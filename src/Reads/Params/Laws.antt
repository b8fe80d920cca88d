-- ===== src/Reads/Params/Laws.antt =====
-- A market's parameters are its own answers, and what the operator link rests on.
use ghoststake.Prelude.{
  ℕ, ◌+◌, ◌*◌, ◌≡◌, refl, Bool, true, false, Option, none, some, List, [], ◌∷◌, map, arith, any,
  any_elim, ◌⊎◌, ◌||◌, inl, inr,
}
use ghoststake.Text.{Text}
use ghoststake.Markets.{Market}
use ghoststake.Claims.{lower}
use ghoststake.Reads.{Fn, Call, ReadResult, as_num, as_string}
use ghoststake.Reads.Batch.{Map, set_some, answers, IsFrom, IsFrom-start, IsFrom-head, IsFrom-next}
use ghoststake.Reads.Params.{
  MarketParams, param_calls_of, param_calls, params_from, params_loop, params_by_market, owner_is,
  is_operator, term_calls_of, terms_from, terms_of, RoundTerms,
}

-- A market's parameters from its own contract.
abbrev pub own_params : (Call → ReadResult) → Market → Option MarketParams
own_params chain m =
    let ask : Fn → Option ReadResult =
      λ f. some (chain (record { address = m.address; function = f })) in
    params_from (as_num (ask Fn.entry_cutoff)) (as_num (ask Fn.min_side_pool))
      (as_num (ask Fn.rake)) (as_num (ask Fn.lock_window)) (as_num (ask Fn.resolve_deadline))
      (as_string (ask Fn.owner))

-- The map that holds each market's own parameters, where all six are read.
abbrev pub own_map : (Call → ReadResult) → List Market → Map MarketParams → Map MarketParams
own_map chain [] out = out
own_map chain (m ∷ markets) out = own_map chain markets (set_some m.key (own_params chain m) out)

params_loop-own :
    (chain : Call → ReadResult) (data' : List ReadResult) (markets : List Market) (i : ℕ)
    (out : Map MarketParams)
    → IsFrom data' (i * 6) (answers chain param_calls_of markets)
    → params_loop (some data') markets i out ≡ own_map chain markets out
params_loop-own chain data' [] i out h = refl
params_loop-own chain data' (m ∷ markets) i out h =
    let all = answers chain param_calls_of (m ∷ markets) in
    let next =
      IsFrom-next data' (map chain (param_calls_of m)) (answers chain param_calls_of markets) i 6
        refl h in
    rw (IsFrom-head data' (i * 6) all h, h 1, h 2, h 3, h 4, h 5)
      (params_loop-own chain data' markets (i + 1) (set_some m.key (own_params chain m) out) next)

-- On the replies to the hook's own batch, the map gives for a key the parameters that the contract
-- of the last market with that key answers itself, and no market is given another's.
pub params_by_market-own :
    (chain : Call → ReadResult) (markets : List Market)
    → params_by_market markets (some (map chain (param_calls markets)))
      ≡ own_map chain markets (λ k. none)
unfolding params_by_market param_calls
params_by_market-own chain markets = params_loop-own chain _ markets 0 (λ k. none) (IsFrom-start _)

abbrev pub own_terms : (Call → ReadResult) → Market → RoundTerms
own_terms chain m =
    let ask : Fn → Option ℕ =
      λ f. as_num (some (chain (record { address = m.address; function = f }))) in
    record {
      market = m.address;
      rake = ask Fn.rake;
      entry_cutoff = ask Fn.entry_cutoff;
      min_side_pool = ask Fn.min_side_pool;
      lock_window = ask Fn.lock_window;
      resolve_deadline = ask Fn.resolve_deadline;
    }

terms_from-own :
    (chain : Call → ReadResult) (data' : List ReadResult) (markets : List Market) (i : ℕ)
    → IsFrom data' (i * 5) (answers chain term_calls_of markets)
    → terms_from (some data') markets i ≡ map (own_terms chain) markets
terms_from-own chain data' [] i h = refl
terms_from-own chain data' (m ∷ markets) i h =
    let rest = terms_from-own chain data' markets (i + 1) (
      IsFrom-next data' (map chain (term_calls_of m)) (answers chain term_calls_of markets) i 5 refl
        h) in
    rw (rest, h 0, h 1, h 2, h 3, h 4) refl

-- On the replies to the hook's own batch, the terms shown for each market are the ones that its own
-- contract answers, each in its own place.
pub terms_of-own :
    (chain : Call → ReadResult) (markets : List Market)
    → terms_of markets (some (answers chain term_calls_of markets)) ≡ map (own_terms chain) markets
unfolding terms_of
terms_of-own chain markets = terms_from-own chain _ markets 0 (IsFrom-start _)

set_some-owner :
    (address k key : Text) (v : Option MarketParams) (out : Map MarketParams)
    → owner_is address (set_some k v out key) ≡ true
    → (owner_is address (out key) ≡ true) ⊎ (owner_is address v ≡ true)
set_some-owner address k key none out h = inl h
set_some-owner address k key (some p) out h = ground arith

||-true : (b : Bool) → (b || true) ≡ true
||-true true = refl
||-true false = refl

-- What the map gives for a key was there before, or is the answer of a market of the list.
own_map-owner :
    (chain : Call → ReadResult) (address : Text) (markets : List Market) (out : Map MarketParams)
    (key : Text)
    → owner_is address (own_map chain markets out key) ≡ true
    → (owner_is address (out key) ≡ true)
      ⊎ (any (λ m. owner_is address (own_params chain m)) markets ≡ true)
own_map-owner chain address [] out key h = inl h
own_map-owner chain address (m ∷ markets) out key h =
    let now = own_params chain m in
    let later = own_map-owner chain address markets (set_some m.key now out) key h in
    let here = set_some-owner address m.key key now out in
    elim later [
      | inl set ↦ elim (here set) [ inl before ↦ inl before | inr own ↦ inr (rw own refl) ]
      | inr among ↦ inr (rw among (||-true (owner_is address now)))
    ]

-- When the operator link is shown to a connected wallet, on the replies to the hook's own batch,
-- some market of the list itself answered that its owner is that wallet.
is_operator-owns :
    (chain : Call → ReadResult) (address : Text) (markets : List Market)
    → is_operator
        (some address)
        markets
        (params_by_market markets (some (map chain (param_calls markets))))
      ≡ true
    → any (λ m. owner_is (map lower address) (own_params chain m)) markets ≡ true
unfolding is_operator
is_operator-owns chain address markets h =
    let same = params_by_market-own chain markets in
    any_elim (λ m. owner_is (map lower address) (own_map chain markets (λ k. none) m.key)) markets
      (rw (← same) h)
      (λ m shown. elim (own_map-owner chain (map lower address) markets (λ k. none) m.key shown) [
        | inl nothing ↦ cc
        | inr found ↦ found
      ])
