-- ===== src/Question.antt =====
-- A round as a question with two answers (ghoststake-frontend/src/lib/question.ts). The time of day
-- is the platform's and is a parameter, `format_clock`, of whole seconds.
use ghoststake.Prelude.{ℕ, ◌*◌, ◌/◌, ◌%◌, Bool, Option, some, [], ◌∷◌, ltb, ◌==◌, if◌then◌else◌}
use ghoststake.Prelude.Int.{pos}
use ghoststake.Text.{Text, trim}
use ghoststake.Rounds.{Side, wad}
use ghoststake.Positions.{Winner}
use ghoststake.Resolution.{Answer}
use ghoststake.Format.{format_amount}
use ghoststake.Category.{subject_of}

unfoldable pub side_key : Side → Answer
side_key Side.up = Answer.yes
side_key Side.down = Answer.no

unfoldable pub winner_key : Winner → Option Answer
winner_key Winner.up = some Answer.yes
winner_key Winner.down = some Answer.no
winner_key Winner.other = Option.none

-- The messages of `questionFor`, with their arguments.
pub data Title : Type 0 where
  unnamed price_higher_at_close : Title
  asked : (own : Text) → Title
  price_higher_at : (at : Text) → Title
  higher_at : (asset at : Text) → Title
  higher_at_close : (asset : Text) → Title
  price_above_at : (level at : Text) → Title
  price_above : (level : Text) → Title
  above_at : (asset level at : Text) → Title
  above : (asset level : Text) → Title

unfoldable pub strike_digits : ℕ → ℕ
strike_digits strike =
    if strike / wad == 0
    then 4
    else if ltb (strike / wad) 100
    then 2
    else if strike % wad == 0
    then 0
    else 2

-- An empty string is falsy.
abbrev text_if : Text → Option Text
text_if [] = Option.none
text_if (c ∷ t) = some (c ∷ t)

abbrev or_feed : Text → Text → Text
or_feed [] feed = feed
or_feed (c ∷ t) feed = c ∷ t

unfoldable pub asset_of : Option Text → Option Text
asset_of Option.none = Option.none
asset_of (some []) = Option.none
asset_of (some (c ∷ feed)) = some (or_feed (subject_of (c ∷ feed)) (c ∷ feed))

unfoldable pub time_of : (ℕ → Text) → ℕ → Text
time_of format_clock seconds = if seconds == 0 then [] else format_clock (seconds * 1000)

abbrev higher_title : Option Text → Option Text → Title
higher_title Option.none Option.none = price_higher_at_close
higher_title Option.none (some at) = price_higher_at at
higher_title (some asset) Option.none = higher_at_close asset
higher_title (some asset) (some at) = higher_at asset at

abbrev above_title : Option Text → Text → Option Text → Title
above_title Option.none level Option.none = price_above level
above_title Option.none level (some at) = price_above_at level at
above_title (some asset) level Option.none = above asset level
above_title (some asset) level (some at) = above_at asset level at

abbrev own_title : Option Text → Title
own_title Option.none = unnamed
own_title (some own) = asked own

abbrev trimmed : Option Text → Option Text
trimmed Option.none = Option.none
trimmed (some feed) = text_if (trim feed)

abbrev at_of : (ℕ → Text) → Option ℕ → Option Text
at_of format_clock Option.none = Option.none
at_of format_clock (some seconds) = text_if (time_of format_clock seconds)

unfoldable pub price_title : Text → Text → Option Text → ℕ → Option Text → Title
price_title group decimal asset strike at =
    if strike == 0
    then higher_title asset at
    else above_title asset
        (b'$' ∷ format_amount group decimal (pos strike) 18 (strike_digits strike)) at

abbrev strike_or_zero : Option ℕ → ℕ
strike_or_zero Option.none = 0
strike_or_zero (some strike) = strike

unfoldable pub question_for :
    (group decimal : Text) (format_clock : ℕ → Text) (feed : Option Text) (strike : Option ℕ)
    (close_time : Option ℕ) (is_question : Bool)
    → Title
unfolding asset_of price_title
question_for group decimal format_clock feed strike close_time is_question =
    if is_question
    then own_title (trimmed feed)
    else price_title group decimal (asset_of feed) (strike_or_zero strike)
        (at_of format_clock close_time)
