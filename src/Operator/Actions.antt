-- ===== src/Operator/Actions.antt =====
-- What the console offers against what the market contract accepts.
use ghoststake.Prelude.{ℕ, ◌+◌, ◌<◌, ◌≡◌, ◌≢◌, Bool, true, Option, some, arith}
use ghoststake.Rounds.{Round, Status}
use ghoststake.Market.{
  u64_mod, lock_round, resolve_round, void_unsettled_round, void_unlocked_round, phase_of,
}
use ghoststake.Operator.{Action, Timing, action_for, is_owner_only}

-- The call behind a button goes through, given a settling price where it needs one; where there
-- is no button, every call is refused.
abbrev pub Accepts : Action → Round → Timing → ℕ → ℕ → Bool → Option ℕ → Type 0
Accepts Action.none r t m now owner price =
    (lock_round r m t.lock_window now ≡ Option.none)
    × (resolve_round r price now ≡ Option.none)
    × (void_unsettled_round r t.resolve_deadline owner now ≡ Option.none)
    × (void_unlocked_round r t.lock_window now ≡ Option.none)
Accepts Action.lock r t m now owner price = lock_round r m t.lock_window now ≢ Option.none
Accepts Action.resolve r t m now owner price = resolve_round r price now ≢ Option.none
Accepts Action.void_unsettled r t m now owner price =
    void_unsettled_round r t.resolve_deadline owner now ≡ some Status.void
Accepts Action.void_unlocked r t m now owner price =
    void_unlocked_round r t.lock_window now ≡ some Status.void

-- For a round whose windows end within 64 bits, the console's button, in the phase that the contract
-- reports and to a caller who may press it, is a call that the contract takes, given a price to
-- settle at; where the console shows none, the contract refuses all four calls.
pub action_for-Accepts :
    (r : Round) (t : Timing) (m now price : ℕ) (owner : Bool)
    → r.lock_time + t.lock_window < u64_mod
    → r.close_time + t.resolve_deadline < u64_mod
    → (is_owner_only (action_for r (phase_of r t.entry_cutoff now) t now) ≡ true → owner ≡ true)
    → Accepts (action_for r (phase_of r t.entry_cutoff now) t now) r t m now owner (some price)
unfolding action_for phase_of is_owner_only lock_round resolve_round void_unsettled_round
    void_unlocked_round
action_for-Accepts r t m now price owner h k o = ground arith
