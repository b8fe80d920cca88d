-- ===== src/Reads/Loans.antt =====
-- What the stock-loan screen reads: ghoststake-frontend/src/hooks/useStockLoan.ts. The vault's address
-- is a parameter.
pub mod Laws
use ghoststake.Prelude.{
  ℕ, zero, suc, ◌+◌, ◌*◌, ◌^◌, ◌-◌, Bool, true, false, ◌&&◌, Option, none, some, List, [], ◌∷◌,
  ◌++◌, map, concat_map, filter_some, or_else, ltb, ◌==◌, length, drop,
}
use ghoststake.Text.{Text}
use ghoststake.Category.{company_of}
use ghoststake.StockLoan.{StockCollateral, Summary, summarise}
use ghoststake.Reads.{
  Fn, Call, ReadResult, CollateralConfig, as_num, as_string, as_config, as_updated_at,
}
use ghoststake.Reads.Batch.{reply_at}

abbrev max_uint256 : ℕ
max_uint256 = 2 ^ 256 - 1

abbrev call : Text → Fn → Call
call address f = record { address = address; function = f }

unfoldable pub head_calls : Text → List Call
head_calls vault =
    map (call vault)
      (Fn.pool ∷ Fn.stable ∷ Fn.stable_decimals ∷ Fn.origination_fee ∷ Fn.collateral_count ∷ [])

-- `Array.from({ length: n }, (_, i) => ...)`, the calls from the i-th on.
abbrev pub config_calls_from : Text → ℕ → ℕ → List Call
config_calls_from vault zero i = []
config_calls_from vault (suc n) i =
    call vault (Fn.collateral_at i) ∷ config_calls_from vault n (i + 1)

unfoldable pub config_calls : Text → Option (List ReadResult) → List Call
config_calls vault head = config_calls_from vault (or_else (as_num (reply_at head 4)) 0) 0

-- The terms that could be read.
unfoldable pub configs_of : Option (List ReadResult) → List CollateralConfig
configs_of none = []
configs_of (some replies) = filter_some (map as_config replies)

abbrev pub label_calls_of : CollateralConfig → List Call
label_calls_of c = call c.token Fn.symbol ∷ call c.token Fn.name ∷ []

unfoldable pub label_calls : Text → List CollateralConfig → List Call
label_calls stable configs = call stable Fn.symbol ∷ concat_map label_calls_of configs

pub record Labelled : Type 0 where
  pub terms : CollateralConfig
  pub symbol : Text
  pub name : Text

-- `companyOf(symbol) ?? name ?? ""`
abbrev name_or : Option Text → Option Text → Text
name_or (some company) name = company
name_or none name = or_else name []

abbrev pub label : CollateralConfig → Option Text → Option Text → Labelled
label c symbol name = record {
  terms = c;
  symbol = or_else symbol [];
  name = name_or (company_of (or_else symbol [])) name;
}

-- `const [stableSymbol, ...names] = labels.data ?? []`
abbrev pub names_of : Option (List ReadResult) → Option (List ReadResult)
names_of none = none
names_of (some replies) = some (drop 1 replies)

abbrev pub labelled_from : Option (List ReadResult) → List CollateralConfig → ℕ → List Labelled
labelled_from names [] i = []
labelled_from names (c ∷ configs) i =
    label c (as_string (reply_at names (i * 2))) (as_string (reply_at names (i * 2 + 1)))
    ∷ labelled_from names configs (i + 1)

-- `collaterals` of `useStockVaultConfig`.
unfoldable pub labelled_of : List CollateralConfig → Option (List ReadResult) → List Labelled
labelled_of configs labels = labelled_from (names_of labels) configs 0

-- `ready`: the labels are there, and no collateral is missing.
unfoldable pub is_ready : Bool → List CollateralConfig → ℕ → Bool
is_ready labels_success configs n = labels_success && ((length configs == n) && ltb 0 n)

module _ (vault user stable pool : Text) where
  abbrev pub token_calls_of : Labelled → List Call
  token_calls_of c =
      call c.terms.token (Fn.balance_of user)
      ∷ call c.terms.token (Fn.allowance user vault)
      ∷ call vault (Fn.collateral_of user c.terms.token)
      ∷ call vault (Fn.value_of c.terms.token (10 ^ c.terms.token_decimals) max_uint256)
      ∷ call c.terms.feed Fn.latest_round_data
      ∷ []

  -- The nine calls before the collaterals'.
  abbrev pub account_calls : List Call
  account_calls =
      call vault (Fn.debt_of user)
      ∷ call vault (Fn.health_factor user)
      ∷ call stable (Fn.balance_of user)
      ∷ call stable (Fn.allowance user vault)
      ∷ call stable (Fn.allowance user pool)
      ∷ call pool (Fn.balance_of_supply user)
      ∷ call pool Fn.supply_rate_per_second
      ∷ call pool Fn.borrow_rate_per_second
      ∷ call pool Fn.available_liquidity
      ∷ []

  unfoldable pub live_calls : List Labelled → List Call
  live_calls collaterals = account_calls ++ concat_map token_calls_of collaterals

abbrev pub collateral_at : Labelled → (ℕ → Option ReadResult) → StockCollateral
collateral_at c at = record {
  token = c.terms.token;
  symbol = c.symbol;
  name = c.name;
  decimals = c.terms.token_decimals;
  max_ltv = c.terms.max_ltv;
  liquidation_threshold = c.terms.liquidation_threshold;
  liquidation_bonus = c.terms.liquidation_bonus;
  max_age = c.terms.max_age;
  liquidation_max_age = c.terms.liquidation_max_age;
  wallet = as_num (at 0);
  allowance = as_num (at 1);
  deposited = as_num (at 2);
  value_per_token = as_num (at 3);
  updated_at = as_updated_at (at 4);
}

-- `const base = 9 + i * 5`
abbrev pub collaterals_from : Option (List ReadResult) → List Labelled → ℕ → List StockCollateral
collaterals_from live [] i = []
collaterals_from live (c ∷ cs) i =
    collateral_at c (λ k. reply_at live (9 + i * 5 + k)) ∷ collaterals_from live cs (i + 1)

pub record StockLoan : Type 0 where
  pub debt : Option ℕ
  pub health_factor : Option ℕ
  pub stable_wallet : Option ℕ
  pub stable_allowance_vault : Option ℕ
  pub stable_allowance_pool : Option ℕ
  pub supplied : Option ℕ
  pub supply_rate : Option ℕ
  pub borrow_rate : Option ℕ
  pub liquidity : Option ℕ
  pub collaterals : List StockCollateral
  pub summary : Summary

unfoldable pub stock_loan : List Labelled → Option (List ReadResult) → StockLoan
stock_loan configs live =
    let collaterals = collaterals_from live configs 0 in
    record {
      debt = as_num (reply_at live 0);
      health_factor = as_num (reply_at live 1);
      stable_wallet = as_num (reply_at live 2);
      stable_allowance_vault = as_num (reply_at live 3);
      stable_allowance_pool = as_num (reply_at live 4);
      supplied = as_num (reply_at live 5);
      supply_rate = as_num (reply_at live 6);
      borrow_rate = as_num (reply_at live 7);
      liquidity = as_num (reply_at live 8);
      collaterals = collaterals;
      summary = summarise collaterals;
    }
