-- ===== src/MarketList.antt =====
-- The browsing list's rows and their order (ghoststake-frontend/src/lib/marketList.ts, and the
-- type of a listed round of hooks/useRounds.ts that it reads). The chain's parameters of a market
-- are passed through and are left out.
pub mod Activity
use ghoststake.Prelude.{
  ℕ, ◌+◌, ◌/◌, ◌%◌, Bool, true, false, not, same_bool, ◌&&◌, Option, none, some, List, find?, ltb,
  ◌==◌, if◌then◌else◌,
}
use ghoststake.Prelude.Int.{ℤ, pos, negsuc}
use ghoststake.Text.{Text}
use ghoststake.Text.Order.{text_ltb}
use ghoststake.Markets.{Market}
use ghoststake.Rounds.{Round, Phase}
use ghoststake.Format.{Measure, hour, minute, second}

pub record MarketRound : Type 0 where
  pub market : Market
  pub id : ℕ
  pub round : Round
  pub phase : Option Phase
  pub up : Option ℕ
  pub down : Option ℕ
  pub claimable : Option ℕ
  pub is_claimed : Option Bool

pub record Summary : Type 0 where
  pub market_key : Text
  pub live : Option MarketRound
  pub volume : ℕ

abbrev is_settled : Option Phase → Bool
is_settled (some Phase.resolved) = true
is_settled (some Phase.void) = true
is_settled _ = false

-- Equality of two strings.
abbrev pub same_text : Text → Text → Bool
same_text s t = not (text_ltb s t) && not (text_ltb t s)

abbrev volume_of : Option MarketRound → ℕ
volume_of none = 0
volume_of (some r) = r.round.up_pool + r.round.down_pool

unfoldable pub summarise : Text → List MarketRound → Summary
summarise key rounds =
    let live = find? (λ r. same_text r.market.key key && not (is_settled r.phase)) rounds in
    record { market_key = key; live = live; volume = volume_of live }

abbrev pub is_live : Summary → Bool
is_live s = elim s.live [ none ↦ false | some r ↦ true ]

abbrev first_if : Bool → ℤ
first_if b = if b then negsuc 0 else pos 1

unfoldable pub by_activity : Summary → Summary → ℤ
by_activity a b =
    if not (same_bool (is_live a) (is_live b))
    then first_if (is_live a)
    else if not (a.volume == b.volume)
    then first_if (ltb b.volume a.volume)
    else first_if (text_ltb a.market_key b.market_key)

unfoldable pub format_horizon : (Measure → ℕ → Text) → ℕ → Text
format_horizon format_unit seconds =
    if seconds % 3600 == 0
    then format_unit hour (seconds / 3600)
    else if seconds % 60 == 0
    then format_unit minute (seconds / 60)
    else format_unit second seconds
