-- ===== src/Reads.antt =====
-- Reads of the chain in batches, as the hooks make them through wagmi's `useReadContracts`: a list
-- of calls, and a list of replies that the hook takes apart by position. The chain is a parameter
-- `chain : Call → ReadResult`; wagmi answers a batch in the order of its calls.
pub mod Batch
pub mod Rows
pub mod Params
pub mod Feeds
pub mod Loans
use ghoststake.Prelude.{ℕ, Bool, true, false, ◌||◌, Option, none, some, List, [], ◌∷◌, map, any}
use ghoststake.Text.{Text}
use ghoststake.Rounds.{Round, Phase, Side}

-- The functions that the hooks call, with their arguments; an account is its address.
pub data Fn : Type 0 where
  -- of a market
  round_count entry_cutoff min_side_pool rake lock_window resolve_deadline owner oracle : Fn
  rounds phase_of : ℕ → Fn
  stake_of : ℕ → Text → Side → Fn
  claimable_of claimed : ℕ → Text → Fn
  -- of an oracle or a feed
  feed question description read_latest : Fn
  get_round_data : ℕ → Fn
  latest_round_data : Fn
  -- of a token
  symbol name : Fn
  balance_of : Text → Fn
  allowance : Text → Text → Fn
  -- of the pool
  balance_of_supply : Text → Fn
  supply_rate_per_second borrow_rate_per_second available_liquidity : Fn
  -- of the stock-loan vault
  pool stable stable_decimals origination_fee collateral_count : Fn
  collateral_at : ℕ → Fn
  debt_of health_factor : Text → Fn
  collateral_of : Text → Text → Fn
  value_of : Text → ℕ → (max_age : ℕ) → Fn

pub record Call : Type 0 where
  pub address : Text
  pub function : Fn

-- A collateral's terms, as `collateralAt` returns them.
pub record CollateralConfig : Type 0 where
  pub token : Text
  pub feed : Text
  pub token_decimals : ℕ
  pub max_ltv : ℕ
  pub liquidation_threshold : ℕ
  pub liquidation_bonus : ℕ
  pub max_age : ℕ
  pub liquidation_max_age : ℕ

-- What a function returns.
pub data Value : Type 0 where
  num : ℕ → Value
  flag : Bool → Value
  string : Text → Value
  round : Round → Value
  phase : Phase → Value
  config : CollateralConfig → Value
  -- `readLatest`: whether the price is usable, the price, and the feed's round.
  latest : Bool → ℕ → ℕ → Value
  -- `getRoundData` and `latestRoundData`: the time of publication is the fourth field.
  print : ℕ → ℕ → ℕ → (updated_at : ℕ) → ℕ → Value

-- `{ status, result }`: a failed call has no result.
pub data ReadResult : Type 0 where
  success : Value → ReadResult
  failure : ReadResult

abbrev pub is_failure : ReadResult → Bool
is_failure (success v) = false
is_failure failure = true

-- `data?.[i]?.result as bigint | undefined`, and the like. The ABI gives a call's result its type,
-- so a cast of a value of another type does not occur.
abbrev pub as_num : Option ReadResult → Option ℕ
as_num (some (success (num n))) = some n
as_num _ = none

abbrev pub as_flag : Option ReadResult → Option Bool
as_flag (some (success (flag b))) = some b
as_flag _ = none

abbrev pub as_string : Option ReadResult → Option Text
as_string (some (success (string t))) = some t
as_string _ = none

abbrev pub as_round : Option ReadResult → Option Round
as_round (some (success (round r))) = some r
as_round _ = none

abbrev pub as_phase : Option ReadResult → Option Phase
as_phase (some (success (phase p))) = some p
as_phase _ = none

abbrev pub as_latest : Option ReadResult → Option (Bool × ℕ × ℕ)
as_latest (some (success (latest usable price id))) = some (usable, price, id)
as_latest _ = none

-- `updatedAt` of a print.
abbrev pub as_updated_at : Option ReadResult → Option ℕ
as_updated_at (some (success (print id answer started updated_at answered))) = some updated_at
as_updated_at _ = none

-- `r.status === "success" ? [r.result] : []`
abbrev pub as_config : ReadResult → Option CollateralConfig
as_config (success (config c)) = some c
as_config _ = none
