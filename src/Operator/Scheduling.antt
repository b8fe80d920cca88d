-- ===== src/Operator/Scheduling.antt =====
-- Schedules and warnings against the market contract.
use ghoststake.Prelude.{
  ℕ, ◌+◌, ◌≤◌, ◌<◌, ◌≡◌, ◌≢◌, ◌↔◌, Bool, true, false, not, ◌&&◌, Option, some, [], ◌∷◌, ◌++◌, arith,
  any, is_some, if◌then◌else◌,
}
use ghoststake.Rounds.{Round, Status}
use ghoststake.Market.{u64_mod, lock_round, phase_of, open_round_accepts}
use ghoststake.Market.Custody.{Terms, Context, State}
use ghoststake.Market.Custody.Contract.{open_round, opened_book, apply_call}
use ghoststake.Operator.{
  Action, Timing, action_for, Warning, warnings_for, schedule_from, schedule_problem, Schedule,
}

abbrev pub is_thin : Warning → Bool
is_thin Warning.thin_side = true
is_thin _ = false

abbrev pub is_missed : Warning → Bool
is_missed Warning.lock_window_missed = true
is_missed _ = false

-- Where the console offers a lock, it warns of a thin side exactly when that lock would void the
-- round; and it warns of a missed window exactly when it offers to unwind an unlocked round.
warnings_for_iff :
    (r : Round) (t : Timing) (m now : ℕ)
    → let phase = phase_of r t.entry_cutoff now in
      (action_for r phase t now ≡ Action.lock
        → (any is_thin (warnings_for r phase t m now) ≡ true)
          ↔ (lock_round r m t.lock_window now ≡ some Status.void))
      × ((any is_missed (warnings_for r phase t m now) ≡ true)
          ↔ (action_for r phase t now ≡ Action.void_unlocked))
unfolding action_for warnings_for phase_of lock_round
warnings_for_iff r t m now = ground arith

accepts_iff :
    (s : Schedule) (strike cutoff now : ℕ)
    → strike ≢ 0
    → s.open_time + cutoff < u64_mod
    → (schedule_problem s cutoff now ≡ Option.none)
      ↔ (open_round_accepts s.open_time s.lock_time s.close_time strike cutoff now ≡ true)
unfolding schedule_problem open_round_accepts
accepts_iff s strike cutoff now h k = ground arith

-- For a strike that is not zero and times in range, a call of openRound by the owner while entries
-- are open adds the round where the console finds no problem with the schedule, with the
-- contract's cutoff and at the time of the block, and reverts where it finds one; by anybody
-- else, or while entries are paused, it reverts whatever the console finds.
pub open_round-schedule_problem :
    (t : Terms) (c : Context) (st : State) (s : Schedule) (strike : ℕ)
    → strike ≢ 0
    → s.open_time + t.entry_cutoff < u64_mod
    → apply_call t c st (open_round s.open_time s.lock_time s.close_time strike) ≡ (
        if c.by_owner && (c.entries_open && not (is_some (schedule_problem s t.entry_cutoff c.now)))
        then some (record st {
          books = st.books ++ opened_book s.open_time s.lock_time s.close_time strike ∷ [];
        })
        else Option.none)
unfolding apply_call
open_round-schedule_problem t c st s strike h k =
    let same = accepts_iff s strike t.entry_cutoff c.now h k in ground arith

-- A schedule made at `now` is accepted at every instant up to its lead later, and at no later
-- one, if and only if the entry window outlasts the cutoff and there is an observation.
pub schedule_from_lead :
    (now lead entry observation cutoff later : ℕ)
    → (schedule_problem (schedule_from now lead entry observation) cutoff later ≡ Option.none)
      ↔ ((later ≤ now + lead) × (cutoff < entry) × (0 < observation))
unfolding schedule_problem schedule_from
schedule_from_lead now lead entry observation cutoff later = ground arith
