-- ===== src/Category.antt =====
-- What a market is about, from its feed's description
-- (ghoststake-frontend/src/lib/marketCategory.ts). Descriptions are ASCII, as on-chain feeds are, so
-- that `toUpperCase` is on letters alone. `displayName`'s pair is left out.
pub mod Stocks
use ghoststake.Prelude.{
  ℕ, ◌-◌, Bool, false, ◌&&◌, Option, some, List, [], ◌∷◌, ◌++◌, leb, ◌==◌, if◌then◌else◌, map,
  length, drop, any, all, find?,
}
use ghoststake.Text.{Text, codes, trim, split}
use ghoststake.Nav.{same}

pub data Category : Type 0 where
  crypto stocks questions other : Category

pub record Feed : Type 0 where
  pub description : Text
  pub is_question : Bool

abbrev crypto_bases : List Text
crypto_bases =
    codes "BTC"
    ∷ codes "WBTC"
    ∷ codes "ETH"
    ∷ codes "WETH"
    ∷ codes "SOL"
    ∷ codes "LINK"
    ∷ codes "ARB"
    ∷ codes "OP"
    ∷ codes "AVAX"
    ∷ codes "BNB"
    ∷ codes "DOGE"
    ∷ codes "XRP"
    ∷ codes "POL"
    ∷ codes "MATIC"
    ∷ codes "USDC"
    ∷ codes "USDT"
    ∷ codes "DAI"
    ∷ []

-- `split(" - ").pop()`: what follows the last separator, read from the left; `start` is the segment
-- that the reader is in.
unfoldable pub last_segment : Text → Text → Text
last_segment start (a ∷ b ∷ c ∷ t) =
    let skipped = last_segment t t in
    let moved = last_segment start (b ∷ c ∷ t) in
    if (a == b' ') && ((b == b'-') && (c == b' ')) then skipped else moved
last_segment start _ = start

abbrev first_of : List Text → Text
first_of [] = []
first_of (t ∷ ts) = t

abbrev pub upper : ℕ → ℕ
upper c = if leb b'a' c && leb c b'z' then c - 32 else c

unfoldable pub base_asset : Text → Text
base_asset description =
    map upper (trim (first_of (split b'/' (last_segment description description))))

abbrev pub is_capital : ℕ → Bool
is_capital c = leb b'A' c && leb c b'Z'

-- The test `/^RH[A-Z]{1,5}$/`.
unfoldable pub is_stock_base : Text → Bool
is_stock_base (r ∷ h ∷ ticker) =
    (r == b'R')
    && ((h == b'H') && (leb 1 (length ticker) && (leb (length ticker) 5 && all is_capital ticker)))
is_stock_base _ = false

unfoldable pub category_of : Feed → Category
unfolding base_asset
category_of feed =
    let base = base_asset feed.description in
    if feed.is_question
    then questions
    else if is_stock_base base
    then stocks
    else if any (same base) crypto_bases
    then crypto
    else other

abbrev category_names : List (Text × Category)
category_names =
    (codes "crypto", crypto)
    ∷ (codes "stocks", stocks)
    ∷ (codes "questions", questions)
    ∷ (codes "other", other)
    ∷ []

abbrev named : Option (Text × Category) → Option Category
named Option.none = Option.none
named (some (name, category)) = some category

unfoldable pub parse_category : Option Text → Option Category
parse_category Option.none = Option.none
parse_category (some value) = named (find? (λ (p : Text × Category). same p.0 value) category_names)

unfoldable pub logo_symbol_for : Feed → Option Text
unfolding base_asset
logo_symbol_for feed =
    let base = base_asset feed.description in
    if feed.is_question
    then Option.none
    else some (if is_stock_base base then drop 2 base else base)

abbrev companies : List (Text × Text)
companies =
    (codes "TSLA", codes "Tesla")
    ∷ (codes "AMD", codes "AMD")
    ∷ (codes "AMZN", codes "Amazon")
    ∷ (codes "NFLX", codes "Netflix")
    ∷ (codes "PLTR", codes "Palantir")
    ∷ []

abbrev company_named : Option (Text × Text) → Option Text
company_named Option.none = Option.none
company_named (some (ticker, company)) = some company

unfoldable pub company_of : Text → Option Text
company_of ticker =
    company_named (find? (λ (p : Text × Text). same p.0 (map upper ticker)) companies)

abbrev or_ticker : Option Text → Text → Text
or_ticker Option.none ticker = ticker
or_ticker (some company) ticker = company

-- A ticker of the test is in capitals, so that looking it up as it stands is `company_of`.
unfoldable pub subject_of : Text → Text
unfolding base_asset company_of
subject_of description =
    let base = base_asset description in
    if is_stock_base base then or_ticker (company_of (drop 2 base)) (drop 2 base) else base
