-- ===== src/Csp.antt =====
-- The content security policy (ghoststake-frontend/src/lib/csp.ts). `new URL` is a parameter, by the
-- parts that the code reads of it; a string that it throws on is no input here.
pub mod Directives
use ghoststake.Prelude.{
  ℕ, Bool, true, false, not, ◌||◌, ◌&&◌, List, [], ◌∷◌, ◌++◌, map, any, filter, if◌then◌else◌,
}
use ghoststake.Text.{Text, codes}
use ghoststake.Nav.{same}

pub record Url : Type 0 where
  pub protocol : Text
  pub host : Text
  pub origin : Text

pub record CspInput : Type 0 where
  pub nonce : Text
  pub is_dev : Bool
  pub api_url : Text
  pub rpc_url : Text
  pub wallet_connect : Bool

abbrev pub coinbase : List Text
coinbase =
    codes "https://www.walletlink.org"
    ∷ codes "wss://www.walletlink.org"
    ∷ codes "https://rpc.wallet.coinbase.com"
    ∷ []

abbrev pub walletconnect : List Text
walletconnect =
    codes "https://api.web3modal.org"
    ∷ codes "wss://relay.walletconnect.org"
    ∷ codes "wss://relay.walletconnect.com"
    ∷ codes "https://verify.walletconnect.org"
    ∷ codes "https://verify.walletconnect.com"
    ∷ []

abbrev pub walletconnect_frame : List Text
walletconnect_frame =
    codes "https://verify.walletconnect.org" ∷ codes "https://verify.walletconnect.com" ∷ []

-- `[...new Set(values)]`: each value once, where it first stands.
unfoldable pub unique : List Text → List Text
unique [] = []
unique (v ∷ vs) = v ∷ filter (λ w. not (same w v)) (unique vs)

abbrev pub list_if : Bool → List Text → List Text
list_if b vs = if b then vs else []

-- `values.join(sep)`
unfoldable pub join : Text → List Text → Text
join sep [] = []
join sep (v ∷ []) = v
join sep (v ∷ w ∷ vs) = v ++ (sep ++ join sep (w ∷ vs))

abbrev pub self : Text
self = codes "'self'"

abbrev pub nobody : List Text
nobody = codes "'none'" ∷ []

abbrev pub or_nobody : List Text → List Text
or_nobody [] = nobody
or_nobody (v ∷ vs) = v ∷ vs

module _ (url : Text → Url) (input : CspInput) where
  abbrev pub is_https : Text → Bool
  is_https u = same (url u).protocol (codes "https:")

  abbrev pub api_socket : Text
  api_socket =
      (if is_https input.api_url then codes "wss:" else codes "ws:")
      ++ (codes "//" ++ (url input.api_url).host)

  -- What the page may send data to.
  unfoldable pub connect : List Text
  connect =
      self ∷ (url input.api_url).origin ∷ api_socket ∷ (url input.rpc_url).origin ∷ coinbase
      ++ list_if input.wallet_connect walletconnect

  unfoldable pub directives : List (Text × List Text)
  directives =
      (codes "default-src", self ∷ [])
      ∷ (
        codes "script-src",
        self
            ∷ (codes "'nonce-" ++ (input.nonce ++ codes "'"))
            ∷ codes "'strict-dynamic'"
            ∷ list_if input.is_dev (codes "'unsafe-eval'" ∷ []),
      )
      ∷ (codes "style-src", self ∷ codes "'unsafe-inline'" ∷ [])
      ∷ (
        codes "img-src",
        self
            ∷ codes "data:"
            ∷ codes "blob:"
            ∷ list_if input.wallet_connect (codes "https://api.web3modal.org" ∷ []),
      )
      ∷ (codes "font-src", self ∷ [])
      ∷ (codes "connect-src", unique connect)
      ∷ (codes "frame-src", or_nobody (list_if input.wallet_connect walletconnect_frame))
      ∷ (codes "worker-src", self ∷ codes "blob:" ∷ [])
      ∷ (codes "object-src", nobody)
      ∷ (codes "base-uri", nobody)
      ∷ (codes "form-action", self ∷ [])
      ∷ (codes "frame-ancestors", nobody)
      ∷ []

  abbrev pub directive : Text × List Text → Text
  directive (name, values) = name ++ (codes " " ++ join (codes " ") values)

  unfoldable pub policy : List Text
  policy =
      map directive directives
      ++ list_if (is_https input.api_url && is_https input.rpc_url)
          (codes "upgrade-insecure-requests" ∷ [])

  unfoldable pub build_csp : Text
  build_csp = join (codes "; ") policy
