-- ===== src/Examples/Money.antt =====
-- Amounts, loans, pools and figures.
use ghoststake.Prelude.{
  ℕ, ◌+◌, ◌-◌, ◌*◌, ◌/◌, ◌≤◌, ◌<◌, ◌≡◌, ◌↔◌, refl, true, some, [], ◌∷◌, ◌++◌, arith,
}
use ghoststake.Prelude.Int.{pos, negsuc, ◌+ℤ◌, scale}
use ghoststake.Text.{Text, codes, trim, split, big_int, pad_end, pad_start, to_string}
use ghoststake.Rounds.{wad}
use ghoststake.Amount.{parse_amount, to_decimal_string}
use ghoststake.Amount.RoundTrip.{parse_amount-to_decimal_string}
use ghoststake.StockLoan.{
  StockCollateral, held, max_borrow, max_withdraw, summarise, origination_fee_on,
}
use ghoststake.StockLoan.Borrow.{max_borrow_iff, max_borrow_closed}
use ghoststake.StockLoan.Withdraw.{max_withdraw_shortfall, after_withdraw}
use ghoststake.Stake.{StakeStanding, borrow_headroom}
use ghoststake.Format.{group_rest, format_fixed, format_health_factor, scaled, half_up}
use ghoststake.Format.Figures.{ungroup, parse_amount-format_fixed}
use ghoststake.Format.Health.{format_health_factor_line}

max_reads : parse_amount (codes "1.5") 6 ≡ some (pos 1500000)
unfolding parse_amount trim split big_int pad_end ◌+ℤ◌ scale
max_reads = refl

parse_amount-to_decimal_string_example :
    parse_amount (to_decimal_string 1500000 6) 6 ≡ some (pos 1500000)
parse_amount-to_decimal_string_example = parse_amount-to_decimal_string 1500000 6

abbrev gold : StockCollateral
gold = record {
  token = codes "0x01";
  symbol = codes "GLD";
  name = codes "Gold";
  decimals = 2;
  max_ltv = 800000000000000000;
  liquidation_threshold = 850000000000000000;
  liquidation_bonus = 50000000000000000;
  max_age = 3600;
  liquidation_max_age = 7200;
  wallet = some 0;
  allowance = some 0;
  deposited = some 4;
  value_per_token = some 125;
  updated_at = some 1;
}

-- A withdrawal of one, which leaves a limit of two under a debt of three.
one_offered : max_withdraw gold (summarise (gold ∷ [])) (some 3) ≡ 1
unfolding max_withdraw summarise
one_offered = refl

limit_left : (summarise (after_withdraw gold 1 ∷ [])).borrow_limit ≡ 2
unfolding summarise
limit_left = refl

max_withdraw_shortfall_example :
    (1 ≤ held gold) × (3 ≤ (summarise ([] ++ after_withdraw gold 1 ∷ [])).borrow_limit + 1)
max_withdraw_shortfall_example =
    max_withdraw_shortfall [] [] gold 125 3 1 refl (omega arith) (omega arith) (omega arith)
      (omega (arith, one_offered))

max_borrow_iff_example :
    (100 + 50 + origination_fee_on 50 10000000000000000 ≤ 1000)
    ↔ (50 ≤ max_borrow 1000 100 10000000000000000)
max_borrow_iff_example = max_borrow_iff 1000 100 10000000000000000 50 (omega arith)

max_borrow_closed_example :
    max_borrow 1000 100 10000000000000000 ≡ ((1000 - 100) * wad) / (wad + 10000000000000000)
max_borrow_closed_example = max_borrow_closed 1000 100 10000000000000000

within_headroom : 990 ≤ borrow_headroom 1000 5000
unfolding borrow_headroom
within_headroom = omega arith

abbrev short_by_ten : StakeStanding
short_by_ten = record { redeemable = 90; ledger = 100; unbacked = 10; backed = true }

parse_amount-format_fixed_example :
    parse_amount
      (ungroup b',' (format_fixed (b',' ∷ []) (b'.' ∷ []) (pos 1234567891) 6 2 half_up))
      2
    ≡ some (pos (scaled 1234567891 6 2 half_up))
parse_amount-format_fixed_example = parse_amount-format_fixed 1234567891 6 2 half_up (omega arith)

grouped : format_fixed (b',' ∷ []) (b'.' ∷ []) (negsuc 1234567890) 6 2 half_up ≡ codes "-1,234.57"
unfolding format_fixed to_string group_rest pad_start
grouped = refl

just_below : format_health_factor (b',' ∷ []) (b'.' ∷ []) 995000000000000000 2 ≡ some (codes "0.99")
unfolding format_health_factor to_string group_rest pad_start
just_below = refl

format_health_factor_line_example :
    (text : Text) × (n : ℕ) × (format_health_factor (b',' ∷ []) (b'.' ∷ []) 995000000000000000 2
      ≡ some text)
    × (parse_amount (ungroup b',' text) 2 ≡ some (pos n))
    × (n * 10000000000000000 ≤ 995000000000000000)
    × (995000000000000000 < (n + 1) * 10000000000000000)
    × ((100 ≤ n) ↔ (wad ≤ 995000000000000000))
format_health_factor_line_example = format_health_factor_line 995000000000000000 (omega arith)
