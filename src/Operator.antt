-- ===== src/Operator.antt =====
-- What an operator can do to a round right now, and what the console warns about
-- (ghoststake-frontend/src/lib/operator.ts).
pub mod Actions
pub mod CloseRound
pub mod Scheduling
use ghoststake.Prelude.{
  ℕ, ◌+◌, ◌-◌, ◌*◌, ◌/◌, Bool, true, false, ◌||◌, ◌&&◌, not, Option, some, List, [], ◌∷◌, ◌++◌, ltb,
  leb, ◌==◌, if◌then◌else◌,
}
use ghoststake.Rounds.{Status, Phase, Round}

pub data Action : Type 0 where
  none lock resolve void_unsettled void_unlocked : Action

unfoldable pub is_owner_only : Action → Bool
is_owner_only Action.void_unsettled = true
is_owner_only _ = false

pub data Gate : Type 0 where
  opened question checking : Gate

unfoldable pub open_round_gate : Option Bool → Gate
open_round_gate Option.none = Gate.checking
open_round_gate (some is_question) = if is_question then Gate.question else Gate.opened

pub record Timing : Type 0 where
  pub entry_cutoff : ℕ
  pub lock_window : ℕ
  pub resolve_deadline : ℕ

-- `phase === Phase.Resolved || phase === Phase.Void || phase === Phase.None`
abbrev pub is_over : Phase → Bool
is_over Phase.resolved = true
is_over Phase.void = true
is_over Phase.none = true
is_over _ = false

action_opened : Round → Timing → ℕ → Action
action_opened round timing now =
    if ltb now round.lock_time
    then Action.none
    else if ltb (round.lock_time + timing.lock_window) now
    then Action.void_unlocked
    else Action.lock

action_locked : Round → Timing → ℕ → Action
action_locked round timing now =
    if ltb now round.close_time
    then Action.none
    else if ltb (round.close_time + timing.resolve_deadline) now
    then Action.void_unsettled
    else Action.resolve

abbrev by_status : Status → Action → Action → Action
by_status Status.opened a b = a
by_status Status.locked a b = b
by_status _ a b = Action.none

unfoldable pub action_for : Round → Phase → Timing → ℕ → Action
unfolding action_opened action_locked
action_for round phase timing now =
    if is_over phase
    then Action.none
    else by_status round.status (action_opened round timing now) (action_locked round timing now)

-- The code of a `Warning`.
pub data Warning : Type 0 where
  thin_side lock_window_closing lock_window_missed resolve_deadline_closing : Warning

abbrev when : Bool → Warning → List Warning
when true w = w ∷ []
when false w = []

-- `windowEnds - now` is read only where `now` is not past the window's end.
warnings_opened : Round → Timing → ℕ → ℕ → List Warning
warnings_opened round timing min_side_pool now =
    let window_ends = round.lock_time + timing.lock_window in
    when (ltb round.up_pool min_side_pool || ltb round.down_pool min_side_pool) Warning.thin_side
    ++ (if ltb window_ends now
        then Warning.lock_window_missed ∷ []
        else when (leb round.lock_time now && leb (window_ends - now) (timing.lock_window / 3))
            Warning.lock_window_closing)

warnings_locked : Round → Timing → ℕ → List Warning
warnings_locked round timing now =
    let deadline = round.close_time + timing.resolve_deadline in
    when
      (leb round.close_time now
        && leb now deadline
        && leb (deadline - now) (timing.resolve_deadline / 3))
      Warning.resolve_deadline_closing

abbrev list_by_status : Status → List Warning → List Warning → List Warning
list_by_status Status.opened a b = a
list_by_status Status.locked a b = b
list_by_status _ a b = []

unfoldable pub warnings_for : Round → Phase → Timing → ℕ → ℕ → List Warning
unfolding warnings_opened warnings_locked
warnings_for round phase timing min_side_pool now =
    if is_over phase
    then []
    else list_by_status round.status (warnings_opened round timing min_side_pool now)
        (warnings_locked round timing now)

pub record Schedule : Type 0 where
  pub open_time : ℕ
  pub lock_time : ℕ
  pub close_time : ℕ

unfoldable pub schedule_from : ℕ → ℕ → ℕ → ℕ → Schedule
schedule_from now lead_seconds entry_window observation =
    let open_time = now + lead_seconds in
    record {
      open_time = open_time;
      lock_time = open_time + entry_window;
      close_time = open_time + entry_window + observation;
    }

-- The message of `scheduleProblem`; `entry_too_short` carries the cutoff that it shows.
pub data ScheduleProblem : Type 0 where
  past : ScheduleProblem
  entry_too_short : ℕ → ScheduleProblem
  no_observation : ScheduleProblem

unfoldable pub schedule_problem : Schedule → ℕ → ℕ → Option ScheduleProblem
schedule_problem schedule entry_cutoff now =
    if ltb schedule.open_time now
    then some past
    else if leb schedule.lock_time (schedule.open_time + entry_cutoff)
    then some (entry_too_short entry_cutoff)
    else if leb schedule.close_time schedule.lock_time
    then some no_observation
    else Option.none
