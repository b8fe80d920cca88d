-- ===== src/Markets.antt =====
-- The markets of a deployment, from the environment or from the registry:
-- ghoststake-frontend/src/lib/markets.ts and ghoststake-frontend/src/hooks/useMarkets.ts.
use ghoststake.Prelude.{
  ℕ, Bool, true, ◌||◌, Option, none, some, List, [], ◌∷◌, ◌++◌, map, is_some, filter,
}
use ghoststake.Text.{Text}
use ghoststake.Claims.{lower}
use ghoststake.Env.{Env}

pub data FeedKind : Type 0 where
  chainlink demo unknown : FeedKind

pub record Market : Type 0 where
  pub key : Text
  pub address : Text
  pub router : Text
  pub horizon : Option ℕ
  pub enabled : Bool
  pub kind_hint : FeedKind

-- `if (market && router) out.push(...)`; an address of `env` is never empty.
abbrev push_if : FeedKind → Option Text → Option Text → List Market
push_if kind (some market) (some router) =
    record {
      key = map lower market;
      address = market;
      router = router;
      horizon = none;
      enabled = true;
      kind_hint = kind;
    }
    ∷ []
push_if kind _ _ = []

unfoldable pub env_markets : Env → List Market
env_markets env =
    push_if FeedKind.chainlink env.market_address env.router_address
    ++ push_if FeedKind.demo env.demo_market_address env.demo_router_address

unfoldable pub any_market_configured : Env → Bool
any_market_configured env =
    is_some env.registry_address || elim (env_markets env) [ [] ↦ Bool.false | m ∷ ms ↦ true ]

pub record Listing : Type 0 where
  pub market : Text
  pub router : Text
  pub horizon : ℕ
  pub enabled : Bool

abbrev of_listing : Listing → Market
of_listing l = record {
  key = map lower l.market;
  address = l.market;
  router = l.router;
  horizon = some l.horizon;
  enabled = l.enabled;
  kind_hint = FeedKind.unknown;
}

-- `markets` of the hook: `registry` is what the registry answered, if it has.
unfoldable pub markets_of : Env → Option (List Listing) → List Market
markets_of env registry = elim env.registry_address [
  | none ↦ env_markets env
  | some _ ↦ elim registry [ none ↦ [] | some listings ↦ map of_listing listings ]
]

unfoldable pub listed : List Market → List Market
listed markets = filter (λ m. m.enabled) markets
