-- ===== src/Reads/Loans/Laws.antt =====
-- Each collateral on the stock-loan screen shows the answers on its own token.
use ghoststake.Prelude.{
  ℕ, ◌+◌, ◌*◌, ◌≡◌, refl, Option, some, List, [], ◌∷◌, ◌++◌, map, arith, get_elem?,
}
use ghoststake.Text.{Text}
use ghoststake.StockLoan.{StockCollateral, summarise}
use ghoststake.Reads.{Fn, Call, ReadResult, CollateralConfig, as_num, as_string}
use ghoststake.Reads.Batch.{answers, IsFrom, IsFrom-start, IsFrom-head, IsFrom-skip, IsFrom-next}
use ghoststake.Reads.Loans.{
  label, label_calls_of, label_calls, labelled_from, labelled_of, Labelled, token_calls_of,
  account_calls, live_calls, collateral_at, collaterals_from, stock_loan,
}

module _ (chain : Call → ReadResult) where
  abbrev pub own_label : CollateralConfig → Labelled
  own_label c =
      label c (as_string (some (chain (record { address = c.token; function = Fn.symbol }))))
        (as_string (some (chain (record { address = c.token; function = Fn.name }))))

  labelled_from-own :
      (names : List ReadResult) (cs : List CollateralConfig) (i : ℕ)
      → IsFrom names (i * 2) (answers chain label_calls_of cs)
      → labelled_from (some names) cs i ≡ map own_label cs
  labelled_from-own names [] i h = refl
  labelled_from-own names (c ∷ cs) i h =
      let rest = labelled_from-own names cs (i + 1) (
        IsFrom-next names (map chain (label_calls_of c)) (answers chain label_calls_of cs) i 2 refl
          h) in
      rw (rest, IsFrom-head names (i * 2) (answers chain label_calls_of (c ∷ cs)) h, h 1) refl

  -- On the replies to the hook's batch of labels, each collateral carries its own token's symbol and
  -- name.
  pub labelled_of-own :
      (stable : Text) (cs : List CollateralConfig)
      → labelled_of cs (some (map chain (label_calls stable cs))) ≡ map own_label cs
  unfolding labelled_of label_calls
  labelled_of-own stable cs =
      labelled_from-own (answers chain label_calls_of cs) cs 0
        (IsFrom-start (answers chain label_calls_of cs))

  module _ (vault user stable pool : Text) where
    abbrev pub own_collateral : Labelled → StockCollateral
    own_collateral c =
        collateral_at c (get_elem? (map chain (token_calls_of vault user stable pool c)))

    collaterals_from-own :
        (live : List ReadResult) (cs : List Labelled) (i : ℕ)
        → IsFrom live (9 + i * 5) (answers chain (token_calls_of vault user stable pool) cs)
        → collaterals_from (some live) cs i ≡ map own_collateral cs
    collaterals_from-own live [] i h = refl
    collaterals_from-own live (c ∷ cs) i h =
        let here = map chain (token_calls_of vault user stable pool c) in
        let next = answers chain (token_calls_of vault user stable pool) cs in
        let rest =
          collaterals_from-own live cs (i + 1)
            (IsFrom-skip live here next (9 + i * 5) (9 + (i + 1) * 5) (omega arith) h) in
        rw (rest, h 0, h 1, h 2, h 3, h 4) refl

    -- On the replies to the hook's one batch, each collateral holds the answers on its own token and
    -- feed, the nine account figures are the answers to their own calls, and the summary is of
    -- those collaterals.
    stock_loan-own :
        (cs : List Labelled)
        → let ask : Call → Option ℕ = λ c. as_num (some (chain c)) in
          let on : Text → Fn → Call = λ a f. record { address = a; function = f } in
          stock_loan cs (some (map chain (live_calls vault user stable pool cs))) ≡ record {
            debt = ask (on vault (Fn.debt_of user));
            health_factor = ask (on vault (Fn.health_factor user));
            stable_wallet = ask (on stable (Fn.balance_of user));
            stable_allowance_vault = ask (on stable (Fn.allowance user vault));
            stable_allowance_pool = ask (on stable (Fn.allowance user pool));
            supplied = ask (on pool (Fn.balance_of_supply user));
            supply_rate = ask (on pool Fn.supply_rate_per_second);
            borrow_rate = ask (on pool Fn.borrow_rate_per_second);
            liquidity = ask (on pool Fn.available_liquidity);
            collaterals = map own_collateral cs;
            summary = summarise (map own_collateral cs);
          }
    unfolding stock_loan live_calls
    stock_loan-own cs =
        let tokens = answers chain (token_calls_of vault user stable pool) cs in
        let all = map chain (account_calls vault user stable pool) ++ tokens in
        rw
          (collaterals_from-own all cs 0 (
            IsFrom-skip all (map chain (account_calls vault user stable pool)) tokens 0 9 refl
              (IsFrom-start all)))
          refl
