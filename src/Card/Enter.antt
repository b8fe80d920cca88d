-- ===== src/Card/Enter.antt =====
-- The card's buttons and the market contract's guards on a stake.
use ghoststake.Prelude.{ℕ, ◌≡◌, ◌<◌, true, false, not, Option, some, if◌then◌else◌, arith}
use ghoststake.Rounds.{Round, Side, entry_open}
use ghoststake.Market.Custody.{Book, Terms, Context, enter, entered, holding_of, is_mixed, sums_fit}
use ghoststake.Card.{CardProps, can_enter, side_button}

is_disabled-entry_open :
    (props : CardProps) (r : Round) (cutoff now : ℕ) (shown : Side)
    → props.round ≡ r
    → props.entry_cutoff ≡ cutoff
    → props.now ≡ some now
    → props.can_stake ≡ true
    → (side_button props shown).is_disabled ≡ not (entry_open r cutoff now)
unfolding side_button can_enter
is_disabled-entry_open props r cutoff now shown same cut at stake = ground arith

enter-entry_open :
    (t : Terms) (c : Context) (b : Book) (user amount sink : ℕ) (side : Side)
    → c.entries_open ≡ true
    → 0 < amount
    → is_mixed (holding_of user b.holdings) sink ≡ false
    → sums_fit b.round (holding_of user b.holdings).stake side amount ≡ true
    → enter t c b user side amount sink ≡ (
        if not (entry_open b.round t.entry_cutoff c.now)
        then Option.none
        else some (entered b (holding_of user b.holdings) side amount sink))
unfolding enter entry_open
enter-entry_open t c b user amount sink side unpaused some_amount alone fits =
    rw (unpaused, alone, fits) (ground arith)

-- On a card of the round as the contract has it, with the contract's cutoff and the time of the
-- block, whose buttons have something to do: a stake above zero while entries are not paused, that
-- does not mix two ways in and fits in 256 bits, is accepted where the buttons are enabled and
-- refused where they are not.
pub side_button-enter :
    (t : Terms) (c : Context) (b : Book) (props : CardProps) (user amount sink : ℕ)
    (side shown : Side)
    → props.round ≡ b.round
    → props.entry_cutoff ≡ t.entry_cutoff
    → props.now ≡ some c.now
    → props.can_stake ≡ true
    → c.entries_open ≡ true
    → 0 < amount
    → is_mixed (holding_of user b.holdings) sink ≡ false
    → sums_fit b.round (holding_of user b.holdings).stake side amount ≡ true
    → enter t c b user side amount sink ≡ (
        if (side_button props shown).is_disabled
        then Option.none
        else some (entered b (holding_of user b.holdings) side amount sink))
side_button-enter t c b props user amount sink side shown same cutoff at stake unpaused some_amount
      alone fits =
    rw (is_disabled-entry_open props b.round t.entry_cutoff c.now shown same cutoff at stake)
      (enter-entry_open t c b user amount sink side unpaused some_amount alone fits)
