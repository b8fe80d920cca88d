-- ===== src/Card.antt =====
-- What the card of a round shows (ghoststake-frontend/src/components/RoundCard.tsx), as values:
-- amounts before they are written as text, and messages as constructors.
pub mod Enter
pub mod Countdown
pub mod Ahead
use ghoststake.Prelude.{
  ℕ, zero, suc, ◌+◌, ◌-◌, ◌*◌, ◌/◌, Bool, true, false, not, ◌||◌, ◌&&◌, Option, some, List, [], ◌∷◌,
  ltb, leb, ◌==◌, or_else, drop, if◌then◌else◌,
}
use ghoststake.Prelude.Int.{ℤ, pos, ◌-ℤ◌}
use ghoststake.Text.{Text, codes}
use ghoststake.Nav.{starts_with}
use ghoststake.Rounds.{
  Round, Status, Phase, Side, Percents, is_opened, entry_open, entry_closes_at, multiple_for,
  will_void_on_lock, up_share, round_tenths, side_percents, format_countdown,
}
use ghoststake.Resolution.{Answer}
use ghoststake.Question.{side_key}
use ghoststake.Spot.{Standing, Age, standing_of, price_age, format_age, is_stale_print, is_narrow}
use ghoststake.Reads.Feeds.{Spot}

-- `can_stake` is whether there is an `onStake`.
pub record CardProps : Type 0 where
  pub round : Round
  pub phase : Phase
  pub entry_cutoff : ℕ
  pub min_side_pool : ℕ
  pub rake : ℕ
  pub now : Option ℕ
  pub your_up : Option ℕ
  pub your_down : Option ℕ
  pub can_stake : Bool
  pub is_question : Bool
  pub is_demo : Bool
  pub feed : Option Text
  pub spot : Option Spot

unfoldable pub can_enter : CardProps → Bool
can_enter props = elim props.now [
  | Option.none ↦ false
  | some now ↦ entry_open props.round props.entry_cutoff now
]

unfoldable pub deadline_of : Phase → Round → ℕ → ℤ
deadline_of Phase.opened round entry_cutoff = entry_closes_at round entry_cutoff
deadline_of Phase.cutoff round entry_cutoff = pos round.lock_time
deadline_of _ round entry_cutoff = pos round.close_time

unfoldable pub remaining : CardProps → Option ℤ
remaining props = elim props.now [
  | Option.none ↦ Option.none
  | some now ↦ some (deadline_of props.phase props.round props.entry_cutoff -ℤ pos now)
]

-- What the clock counts to, as its title says.
pub data Until : Type 0 where
  entry_closes start_price settles : Until

abbrev pub until_of : Phase → Option Until
until_of Phase.opened = some entry_closes
until_of Phase.cutoff = some start_price
until_of Phase.observation = some settles
until_of _ = Option.none

pub record Clock : Type 0 where
  pub until : Until
  pub seconds : ℤ
  pub text : Text

-- Shown in a live phase only, once the time is known.
unfoldable pub clock_of : CardProps → Option Clock
clock_of props = elim (until_of props.phase) [
  | Option.none ↦ Option.none
  | some until ↦ elim (remaining props) [
    | Option.none ↦ Option.none
    | some seconds ↦
        some (record { until = until; seconds = seconds; text = format_countdown seconds })
  ]
]

unfoldable pub youre_in : CardProps → Bool
youre_in props = ltb 0 (or_else props.your_up 0) || ltb 0 (or_else props.your_down 0)

-- Whether the card warns that a side is too small for the round to be played.
unfoldable pub is_thin : CardProps → Bool
is_thin props = will_void_on_lock props.round props.min_side_pool && is_opened props.round.status

pub data StrikeLine : Type 0 where
  no_strike : StrikeLine
  strike : (lock_price : ℕ) → StrikeLine
  strike_to_close : (lock_price close_price : ℕ) → StrikeLine

unfoldable pub strike_line : Round → StrikeLine
strike_line round =
    if round.lock_price == 0
    then no_strike
    else if round.close_price == 0
    then strike round.lock_price
    else strike_to_close round.lock_price round.close_price

abbrev pub is_settled : Status → Bool
is_settled Status.resolved = true
is_settled Status.void = true
is_settled _ = false

abbrev pub is_resolved : Status → Bool
is_resolved Status.resolved = true
is_resolved _ = false

-- The percentages are whole; the width of the bar is in tenths of a percent.
pub data Bar : Type 0 where
  nobody_backed nothing_staked : Bar
  split_at : (yes no width up_pool down_pool : ℕ) → Bar

unfoldable pub odds_bar : Round → Bar
odds_bar round = elim (up_share round) [
  | Option.none ↦ if is_settled round.status then nobody_backed else nothing_staked
  | some share ↦
      let yes = round_tenths share in split_at yes (100 - yes) share round.up_pool round.down_pool
]

pub data Caption : Type 0 where
  no_entries no_odds : Caption
  pays : (percent : ℕ) (multiple : ℤ) → Caption

-- `yours` is the stake shown under the button.
pub record SideButton : Type 0 where
  pub is_disabled : Bool
  pub caption : Caption
  pub has_won : Bool
  pub yours : Option ℕ

abbrev pub side_number : Side → ℕ
side_number Side.up = 0
side_number Side.down = 1

abbrev pub percent_of : Side → Option Percents → Option ℕ
percent_of side Option.none = Option.none
percent_of Side.up (some split) = some split.up
percent_of Side.down (some split) = some split.down

unfoldable pub caption_of : Round → Side → ℕ → Caption
caption_of round side rake = elim (multiple_for round side rake) [
  | Option.none ↦ if is_settled round.status then no_entries else no_odds
  | some multiple ↦ pays (or_else (percent_of side (side_percents round)) 0) multiple
]

abbrev pub yours_of : CardProps → Side → Option ℕ
yours_of props Side.up = props.your_up
yours_of props Side.down = props.your_down

abbrev pub shown_stake : Option ℕ → Option ℕ
shown_stake Option.none = Option.none
shown_stake (some stake) = if stake == 0 then Option.none else some stake

unfoldable pub side_button : CardProps → Side → SideButton
side_button props side = record {
  is_disabled = not (can_enter props) || not props.can_stake;
  caption = caption_of props.round side props.rake;
  has_won = is_resolved props.round.status && (props.round.winner == side_number side);
  yours = shown_stake (yours_of props side);
}

pub data Waiting : Type 0 where
  awaiting_strike setting_strike : Waiting

abbrev pub waiting_in : Phase → Waiting
waiting_in Phase.opened = awaiting_strike
waiting_in _ = setting_strike

pub data Lean : Type 0 where
  too_close : Lean
  ahead : (side : Answer) → Lean

pub record Move : Type 0 where
  pub bps : ℤ
  pub lean : Lean

pub record PriceLine : Type 0 where
  pub is_last : Bool
  pub price : ℕ
  pub age : Option Age
  pub move : Option Move
  pub is_unusable : Bool

-- What stands under the strike: that there is none yet, and where the price is.
pub record SpotLine : Type 0 where
  pub waiting : Option Waiting
  pub line : Option PriceLine

abbrev pub move_of : Standing → Option Move
move_of standing = elim standing.bps [
  | Option.none ↦ Option.none
  | some bps ↦ elim standing.leading [
    | Option.none ↦ Option.none
    | some side ↦
        some
          (record { bps = bps; lean = if is_narrow bps then too_close else ahead (side_key side) })
  ]
]

abbrev pub is_stale_age : Option ℕ → Bool
is_stale_age Option.none = false
is_stale_age (some age) = is_stale_print age

abbrev pub age_text : Option ℕ → Option Age
age_text Option.none = Option.none
age_text (some age) = some (format_age age)

unfoldable pub price_line : Round → Option ℕ → Spot → PriceLine
price_line round now spot =
    let age = price_age spot.updated_at now in
    record {
      is_last = is_stale_age age;
      price = spot.price;
      age = age_text age;
      move = move_of (standing_of (some spot.price) (some round.lock_price));
      is_unusable = not spot.usable;
    }

unfoldable pub spot_line : CardProps → SpotLine
spot_line props =
    if is_settled props.round.status
    then record { waiting = Option.none; line = Option.none }
    else record {
      waiting =
          if not props.is_question && (props.round.lock_price == 0)
          then some (waiting_in props.phase)
          else Option.none;
      line = elim props.spot [
        | Option.none ↦ Option.none
        | some spot ↦ some (price_line props.round props.now spot)
      ];
    }

abbrev separator : Text
separator = codes " - "

-- `feed.split(" - ").pop()`: what stands after the last separator, found from the left. `current` is
-- the rest of the text since the last one, and `skip` what is left of a separator.
unfoldable pub last_part : Text → ℕ → Text → Text
last_part current skip [] = current
last_part current (suc skip) (c ∷ cs) = last_part current skip cs
last_part current zero (c ∷ cs) =
    let here = starts_with (c ∷ cs) separator in
    last_part (if here then drop 3 (c ∷ cs) else current) (if here then 2 else 0) cs

abbrev pub name_of : Option Text → Option Text
name_of Option.none = Option.none
name_of (some feed) = some (last_part feed 0 feed)

-- `name` is `none` for "the price feed"; `at` is the close in milliseconds.
pub record Settlement : Type 0 where
  pub has_settled : Bool
  pub is_demo : Bool
  pub name : Option Text
  pub at : ℕ

abbrev pub is_void : Status → Bool
is_void Status.void = true
is_void _ = false

unfoldable pub settlement_note : CardProps → Option Settlement
settlement_note props =
    if props.is_question
    then Option.none
    else if is_void props.round.status
    then Option.none
    else some (record {
      has_settled = is_resolved props.round.status;
      is_demo = props.is_demo;
      name = name_of props.feed;
      at = props.round.close_time * 1000;
    })
