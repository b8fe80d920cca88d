-- ===== src/Examples/Cards.antt =====
-- The card of a round at given times.
use ghoststake.Prelude.{
  ℕ, ◌+◌, ◌≡◌, ◌<◌, ◌↔◌, refl, true, false, Option, some, [], arith, if◌then◌else◌,
}
use ghoststake.Prelude.Int.{pos, tdiv, scale}
use ghoststake.Text.{codes}
use ghoststake.Rounds.{Round, Status, Phase, Side, up_share}
use ghoststake.Market.{phase_of, resolve_round}
use ghoststake.Market.Custody.{Book, Terms, Context, enter, entered, holding_of}
use ghoststake.Resolution.{Answer}
use ghoststake.Question.{side_key}
use ghoststake.Nav.{starts_with}
use ghoststake.Spot.{standing_of, price_age, format_age, is_narrow, is_stale_print}
use ghoststake.Card.{
  CardProps, PriceLine, Move, clock_of, side_button, spot_line, price_line, ahead, odds_bar,
  split_at, last_part,
}
use ghoststake.Card.Countdown.{counting, clock_of-opened}
use ghoststake.Card.Enter.{side_button-enter}
use ghoststake.Card.Ahead.{spot_line-resolve_round}

abbrev round_in : Status → Round
round_in status = record {
  open_time = 100;
  lock_time = 400;
  close_time = 700;
  status = status;
  winner = 0;
  lock_price = 2000;
  close_price = 0;
  lock_oracle_round_id = 0;
  up_pool = 300;
  down_pool = 100;
  rake_taken = 0;
}

abbrev card_at : Status → Phase → ℕ → CardProps
card_at status phase now = record {
  round = round_in status;
  phase = phase;
  entry_cutoff = 30;
  min_side_pool = 50;
  rake = 20000000000000000;
  now = some now;
  your_up = Option.none;
  your_down = Option.none;
  can_stake = true;
  is_question = false;
  is_demo = false;
  feed = some (codes "ETH / USD");
  spot = some (record { price = 2100; usable = true; updated_at = some 650 });
}

clock_of-opened_example :
    (left : ℕ) × (clock_of (card_at Status.opened Phase.opened 300) ≡ some (counting left))
    × ((phase_of (round_in Status.opened) 30 (300 + 20) ≡ Phase.opened) ↔ (20 < left))
unfolding phase_of
clock_of-opened_example =
    clock_of-opened (card_at Status.opened Phase.opened 300) 300 20 refl refl refl

abbrev card_terms : Terms
card_terms = record {
  rake = 20000000000000000;
  entry_cutoff = 30;
  lock_window = 60;
  resolve_deadline = 600;
  min_side_pool = 50;
}

abbrev visit_at : ℕ → Context
visit_at now = record { sender = 7; by_owner = false; entries_open = true; now = now }

abbrev book : Book
book = record { round = round_in Status.opened; holdings = [] }

side_button-enter_example : enter card_terms (visit_at 300) book 7 Side.up 25 0 ≡ (
    if (side_button (card_at Status.opened Phase.opened 300) Side.up).is_disabled
    then Option.none
    else some (entered book (holding_of 7 []) Side.up 25 0))
unfolding holding_of
side_button-enter_example =
    side_button-enter card_terms (visit_at 300) book (card_at Status.opened Phase.opened 300) 7 25 0
      Side.up Side.up refl refl refl refl refl (omega arith) refl refl

abbrev locked_card : CardProps
locked_card = card_at Status.locked Phase.observation 700

abbrev five_percent : Move
five_percent = record { bps = pos 500; lean = ahead Answer.yes }

abbrev shown_line : PriceLine
shown_line = record {
  is_last = false;
  price = 2100;
  age = some (format_age 50);
  move = some five_percent;
  is_unusable = false;
}

spot_line-resolve_round_example :
    resolve_round (round_in Status.locked) (some 2100) 700 ≡ some (Status.resolved, some Side.up)
unfolding spot_line price_line standing_of price_age is_narrow is_stale_print tdiv scale side_key
spot_line-resolve_round_example =
    spot_line-resolve_round locked_card
      (record { price = 2100; usable = true; updated_at = some 650 }) 700 shown_line five_percent
      Side.up refl refl (omega arith) refl refl refl

quarter_on_no : odds_bar (round_in Status.opened) ≡ split_at 75 25 750 300 100
unfolding odds_bar up_share
quarter_on_no = refl

named_last : last_part [] 0 (codes "Demo - ETH / USD") ≡ codes "ETH / USD"
unfolding last_part starts_with
named_last = refl
