-- ===== src/Env.antt =====
-- The configuration of a build (ghoststake-frontend/src/lib/env.ts): which variables are refused, and
-- what the module evaluates to. Two library functions are parameters: `number`, the positive integer
-- that `Number` reads off a string, if it does, and `protocol`, that of `new URL`, if it does not
-- throw.
pub mod Problems
use ghoststake.Prelude.{
  ℕ, Bool, true, false, not, ◌||◌, ◌&&◌, Option, none, some, List, [], ◌∷◌, ◌++◌, all, concat_map,
  leb, ltb, ◌==◌, if◌then◌else◌, length, drop, take, is_some,
}
use ghoststake.Text.{Text, codes, digit_value}
use ghoststake.Nav.{same}

-- The `NEXT_PUBLIC_` variables that are checked.
pub data Variable : Type 0 where
  app_url chain_id vault_address pool_address market_address router_address : Variable
  demo_market_address demo_router_address registry_address stock_vault_address : Variable
  walletconnect_project_id : Variable

pub data Reason : Type 0 where
  not_an_address not_http not_absolute not_a_chain_id not_a_project_id : Reason

pub record ConfigProblem : Type 0 where
  pub variable : Variable
  pub value : Text
  pub reason : Reason

-- What a validator returns, and the problems that it pushes.
abbrev pub Checked {ℓ} : Type ℓ → Type ℓ
Checked A = A × List ConfigProblem

-- `[0-9a-fA-F]` and `[0-9a-f]`
abbrev is_hex : ℕ → Bool
is_hex c = ltb (digit_value c) 16

abbrev is_lower_hex : ℕ → Bool
is_lower_hex c = (leb b'0' c && leb c b'9') || (leb b'a' c && leb c b'f')

-- `/^0x[0-9a-fA-F]{40}$/`
unfoldable pub is_address : Text → Bool
is_address t = same (take 2 t) (codes "0x") && ((length (drop 2 t) == 40) && all is_hex (drop 2 t))

-- `/^[0-9a-f]{32}$/`
unfoldable pub is_project_id : Text → Bool
is_project_id t = (length t == 32) && all is_lower_hex t

-- `if (!value) return unset;`
abbrev pub unless_set {ℓ} : {A : Type ℓ} → Option Text → A → (Text → Checked A) → Checked A
unless_set none unset f = (unset, [])
unless_set (some []) unset f = (unset, [])
unless_set (some (c ∷ t)) unset f = f (c ∷ t)

-- A value is kept, or refused with one problem and replaced.
abbrev pub keep_or {ℓ} : {A : Type ℓ} → Bool → A → A → Variable → Text → Reason → Checked A
keep_or ok kept refused variable value reason =
    if ok
    then (kept, [])
    else (refused, record { variable = variable; value = value; reason = reason } ∷ [])

unfoldable pub optional_address : Variable → Option Text → Checked (Option Text)
optional_address variable value =
    unless_set value none
      (λ v. keep_or (is_address v) (some v) none variable v Reason.not_an_address)

unfoldable pub optional_project_id : Option Text → Checked (Option Text)
optional_project_id value = unless_set value none (λ v.
    keep_or (is_project_id v) (some v) none Variable.walletconnect_project_id v
      Reason.not_a_project_id)

abbrev pub local_site_url : Text
local_site_url = codes "http://localhost:3000"

abbrev pub is_http : Text → Bool
is_http p = same p (codes "http:") || same p (codes "https:")

abbrev url_by : Text → Option Text → Checked Text
url_by v none = keep_or false v local_site_url Variable.app_url v Reason.not_absolute
url_by v (some p) = keep_or (is_http p) v local_site_url Variable.app_url v Reason.not_http

unfoldable pub site_url : (protocol : Text → Option Text) → Option Text → Checked Text
site_url protocol value = unless_set value local_site_url (λ v. url_by v (protocol v))

abbrev pub default_chain_id : ℕ
default_chain_id = 421614

abbrev chain_by : Text → Option ℕ → Checked ℕ
chain_by v none =
    keep_or false default_chain_id default_chain_id Variable.chain_id v Reason.not_a_chain_id
chain_by v (some n) = keep_or (ltb 0 n) n default_chain_id Variable.chain_id v Reason.not_a_chain_id

unfoldable pub required_chain_id : (number : Text → Option ℕ) → Option Text → Checked ℕ
required_chain_id number value = unless_set value default_chain_id (λ v. chain_by v (number v))

pub record Env : Type 0 where
  pub api_url : Text
  pub app_url : Text
  pub chain_id : ℕ
  pub rpc_url : Option Text
  pub vault_address : Option Text
  pub pool_address : Option Text
  pub market_address : Option Text
  pub router_address : Option Text
  pub demo_market_address : Option Text
  pub demo_router_address : Option Text
  pub registry_address : Option Text
  pub stock_vault_address : Option Text
  pub walletconnect_project_id : Option Text

module _ (number : Text → Option ℕ) (protocol : Text → Option Text)
    (value : Variable → Option Text) where
  abbrev pub address_of : Variable → Checked (Option Text)
  address_of v = optional_address v (value v)

  -- `env`; `api` and `rpc` are taken as they are.
  unfoldable pub env : (api rpc : Option Text) → Env
  env api rpc = record {
    api_url = elim api [ none ↦ codes "http://localhost:8080" | some url ↦ url ];
    app_url = (site_url protocol (value Variable.app_url)).0;
    chain_id = (required_chain_id number (value Variable.chain_id)).0;
    rpc_url = rpc;
    vault_address = (address_of Variable.vault_address).0;
    pool_address = (address_of Variable.pool_address).0;
    market_address = (address_of Variable.market_address).0;
    router_address = (address_of Variable.router_address).0;
    demo_market_address = (address_of Variable.demo_market_address).0;
    demo_router_address = (address_of Variable.demo_router_address).0;
    registry_address = (address_of Variable.registry_address).0;
    stock_vault_address = (address_of Variable.stock_vault_address).0;
    walletconnect_project_id = (optional_project_id (value Variable.walletconnect_project_id)).0;
  }

  -- The problems of each variable, in the order in which the fields of `env` are evaluated.
  abbrev pub checks : List (Variable × List ConfigProblem)
  checks =
      (Variable.app_url, (site_url protocol (value Variable.app_url)).1)
      ∷ (Variable.chain_id, (required_chain_id number (value Variable.chain_id)).1)
      ∷ (Variable.vault_address, (address_of Variable.vault_address).1)
      ∷ (Variable.pool_address, (address_of Variable.pool_address).1)
      ∷ (Variable.market_address, (address_of Variable.market_address).1)
      ∷ (Variable.router_address, (address_of Variable.router_address).1)
      ∷ (Variable.demo_market_address, (address_of Variable.demo_market_address).1)
      ∷ (Variable.demo_router_address, (address_of Variable.demo_router_address).1)
      ∷ (Variable.registry_address, (address_of Variable.registry_address).1)
      ∷ (Variable.stock_vault_address, (address_of Variable.stock_vault_address).1)
      ∷ (
        Variable.walletconnect_project_id,
        (optional_project_id (value Variable.walletconnect_project_id)).1,
      )
      ∷ []

  -- `problems`
  unfoldable pub env_problems : List ConfigProblem
  env_problems = concat_map (λ (c : Variable × List ConfigProblem). c.1) checks

unfoldable pub contracts_configured : Env → Bool
contracts_configured e = is_some e.vault_address && is_some e.pool_address

unfoldable pub pool_configured : Env → Bool
pool_configured e = is_some e.pool_address
