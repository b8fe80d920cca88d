-- ===== src/Category/Stocks.antt =====
-- The stock tab and a stock's logo.
use mathlib.Core.List.{append_assoc}
use ghoststake.Prelude.{
  All-append, ◌≤◌, ◌≡◌, ◌≢◌, refl, ◌∙◌, sym, ap, true, false, some, [], ◌∷◌, ◌++◌, arith, All, all,
  length, map,
}
use ghoststake.Text.{Text, split}
use ghoststake.Text.Trim.{IsInk, split_once, trim_of_padded}
use ghoststake.Category.{
  Feed, stocks, last_segment, upper, base_asset, is_capital, is_stock_base, category_of,
  logo_symbol_for,
}

-- A company's ticker as the test has it.
abbrev pub IsTicker : Text → Type 0
IsTicker t = All (λ c. is_capital c ≡ true) t × (1 ≤ length t) × (length t ≤ 5)

last_segment_of_plain : (start t : Text) → All (λ c. c ≢ b'-') t → last_segment start t ≡ start
unfolding last_segment
last_segment_of_plain start [] h = refl
last_segment_of_plain start (a ∷ []) h = refl
last_segment_of_plain start (a ∷ b ∷ []) h = refl
last_segment_of_plain start (a ∷ b ∷ c ∷ t) (p, h) =
    let moved = last_segment_of_plain start (b ∷ c ∷ t) h in ground arith

ticker-IsInk : (t : Text) → All (λ c. is_capital c ≡ true) t → All IsInk t
ticker-IsInk [] h = tt
ticker-IsInk (c ∷ t) (p, h) = (ground arith, ticker-IsInk t h)

slashless : (t : Text) → All (λ c. is_capital c ≡ true) t → All (λ c. c ≢ b'/') t
slashless [] h = tt
slashless (c ∷ t) (p, h) = (ground arith, slashless t h)

hyphenless : (t : Text) → All (λ c. is_capital c ≡ true) t → All (λ c. c ≢ b'-') t
hyphenless [] h = tt
hyphenless (c ∷ t) (p, h) = (ground arith, hyphenless t h)

upper_capitals : (t : Text) → All (λ c. is_capital c ≡ true) t → map upper t ≡ t
upper_capitals [] h = refl
upper_capitals (c ∷ t) (p, h) = let rest = upper_capitals t h in ground arith

all_capital : (t : Text) → All (λ c. is_capital c ≡ true) t → all is_capital t ≡ true
all_capital [] h = refl
all_capital (c ∷ t) (p, h) = let rest = all_capital t h in ground arith

-- The description "RH<ticker> /<quote>".
abbrev pub pair_of : Text → Text → Text
pair_of ticker quote = (b'R' ∷ b'H' ∷ ticker) ++ (b' ' ∷ b'/' ∷ quote)

base_asset-pair_of :
    (ticker quote : Text)
    → IsTicker ticker
    → All (λ c. c ≢ b'-') quote
    → base_asset (pair_of ticker quote) ≡ b'R' ∷ b'H' ∷ ticker
unfolding base_asset
base_asset-pair_of ticker quote (capitals, short, long) plain =
    let base : Text = b'R' ∷ b'H' ∷ ticker in
    let base_capitals : All (λ c. is_capital c ≡ true) base = (refl, (refl, capitals)) in
    let padded : Text = base ++ (b' ' ∷ []) in
    let regroup : pair_of ticker quote ≡ padded ++ (b'/' ∷ quote) =
      sym (append_assoc base (b' ' ∷ []) (b'/' ∷ quote)) in
    let no_hyphen : All (λ c. c ≢ b'-') (pair_of ticker quote) =
      All-append (λ c. c ≢ b'-') base (b' ' ∷ b'/' ∷ quote) (hyphenless base base_capitals)
        (omega arith, (omega arith, plain)) in
    let no_slash : All (λ c. c ≢ b'/') padded =
      All-append (λ c. c ≢ b'/') base (b' ' ∷ []) (slashless base base_capitals)
        (omega arith, tt) in
    let whole = last_segment_of_plain (pair_of ticker quote) (pair_of ticker quote) no_hyphen in
    let parts : split b'/' (pair_of ticker quote) ≡ padded ∷ split b'/' quote =
      ap (split b'/') regroup ∙ split_once b'/' padded quote no_slash in
    let read = trim_of_padded b'R' (b'H' ∷ ticker) refl (ticker-IsInk base base_capitals) in
    rw (whole, parts, read) (upper_capitals base base_capitals)

-- A feed that prices a tokenized stock, "RHTSLA / USD" say, is filed under stocks and shows the
-- ticker's logo, for every ticker of one to five capitals and every quote without a hyphen.
pub category_of-pair_of :
    (ticker quote : Text)
    → IsTicker ticker
    → All (λ c. c ≢ b'-') quote
    → (let feed : Feed = record { description = pair_of ticker quote; is_question = false } in
        (category_of feed ≡ stocks) × (logo_symbol_for feed ≡ some ticker))
unfolding category_of logo_symbol_for is_stock_base
category_of-pair_of ticker quote (capitals, short, long) plain =
    let base = base_asset-pair_of ticker quote (capitals, short, long) plain in
    let all_of = all_capital ticker capitals in ground arith
