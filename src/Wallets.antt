-- ===== src/Wallets.antt =====
-- The order in which the ways to connect are offered (ghoststake-frontend/src/lib/wallets.ts). The
-- ids and types that the code compares with are constructors.
use ghoststake.Prelude.{
  ℕ, Bool, true, false, not, ◌&&◌, List, [], ◌∷◌, ltb, if◌then◌else◌, filter, any,
}
use ghoststake.Text.{Text}

pub data ConnectorId : Type 0 where
  injected coinbase_rdns : ConnectorId
  other : Text → ConnectorId

pub data ConnectorType : Type 0 where
  injected coinbase_wallet wallet_connect : ConnectorType
  other : Text → ConnectorType

pub record WalletOption : Type 0 where
  pub id : ConnectorId
  pub kind : ConnectorType
  pub name : Text

abbrev pub is_injected : WalletOption → Bool
is_injected c = elim c.kind [
  | ConnectorType.injected ↦ true
  | ConnectorType.coinbase_wallet ↦ false
  | ConnectorType.wallet_connect ↦ false
  | ConnectorType.other t ↦ false
]

abbrev pub is_generic : WalletOption → Bool
is_generic c = elim c.id [
  | ConnectorId.injected ↦ true
  | ConnectorId.coinbase_rdns ↦ false
  | ConnectorId.other t ↦ false
]

abbrev pub is_coinbase_rdns : WalletOption → Bool
is_coinbase_rdns c = elim c.id [
  | ConnectorId.injected ↦ false
  | ConnectorId.coinbase_rdns ↦ true
  | ConnectorId.other t ↦ false
]

abbrev pub rank_of : ConnectorType → ℕ
rank_of ConnectorType.coinbase_wallet = 0
rank_of ConnectorType.wallet_connect = 1
rank_of _ = 2

abbrev pub sdk_rank : WalletOption → ℕ
sdk_rank c = rank_of c.kind

abbrev pub is_coinbase_sdk : WalletOption → Bool
is_coinbase_sdk c = elim c.kind [
  | ConnectorType.injected ↦ false
  | ConnectorType.coinbase_wallet ↦ true
  | ConnectorType.wallet_connect ↦ false
  | ConnectorType.other t ↦ false
]

-- The stable sort by rank: a wallet that stood before the sorted rest is put in its place.
insert_wallet : WalletOption → List WalletOption → List WalletOption
insert_wallet c [] = c ∷ []
insert_wallet c (d ∷ ds) =
    let rest = insert_wallet c ds in if ltb (sdk_rank d) (sdk_rank c) then d ∷ rest else c ∷ d ∷ ds

sort_wallets : List WalletOption → List WalletOption
unfolding insert_wallet
sort_wallets [] = []
sort_wallets (c ∷ cs) = insert_wallet c (sort_wallets cs)

pub record Offers : Type 0 where
  pub detected : List WalletOption
  pub others : List WalletOption

abbrev if_announced : List WalletOption → List WalletOption → List WalletOption
if_announced [] generic = generic
if_announced (c ∷ cs) generic = c ∷ cs

unfoldable pub order_wallets : List WalletOption → Bool → Offers
unfolding sort_wallets
order_wallets connectors has_injected_provider =
    let announced = filter (λ c. is_injected c && not (is_generic c)) connectors in
    let generic = filter is_generic connectors in
    let sdk = filter (λ c. not (is_injected c)) connectors in
    let coinbase_announced = any is_coinbase_rdns announced in
    record {
      detected = if_announced announced (if has_injected_provider then generic else []);
      others = sort_wallets (filter (λ c. not (coinbase_announced && is_coinbase_sdk c)) sdk);
    }
