-- ===== src/Resolution.antt =====
-- Reading a claimed outcome (ghoststake-frontend/src/lib/resolution.ts), and the guards of the
-- oracle contract that its window restates (ghoststake-contracts/src/EventRoundOracle.sol).
-- `Date.parse` is a parameter, which gives milliseconds or nothing for NaN.
pub mod Challenge
use ghoststake.Prelude.{
  ℕ, ◌+◌, ◌-◌, ◌*◌, ◌/◌, ◌^◌, Bool, true, false, not, Option, some, List, ◌∷◌, ltb, leb,
  if◌then◌else◌,
}
use ghoststake.Prelude.Int.{ℤ, pos, ltb_ℤ}
use ghoststake.Text.{Text, big_int}

pub data QuestionState : Type 0 where
  opened proposed challenged final abandoned unknown : QuestionState

pub data Answer : Type 0 where
  yes no : Answer

-- The outcome on the wire.
pub data QuestionOutcome : Type 0 where
  yes no other : QuestionOutcome

-- An empty string and a missing field are told apart only where the code does.
pub record RoundQuestion : Type 0 where
  pub oracle : Option Text
  pub state : QuestionState
  pub outcome : Option QuestionOutcome
  pub proposer : Option Text
  pub proposed_at : Option Text
  pub evidence_uri : Option Text
  pub evidence_digest : Option Text
  pub proposer_stake : Option Text
  pub challenge_closes_at : Option Text
  pub challenger : Option Text
  pub challenged_at : Option Text
  pub ruling_due_at : Option Text
  pub arbiter : Option Text
  pub ruled_at : Option Text
  pub reason_uri : Option Text
  pub paid_to : Option Text
  pub abandoned_at : Option Text

unfoldable pub outcome_key : Option QuestionOutcome → Option Answer
outcome_key (some QuestionOutcome.yes) = some Answer.yes
outcome_key (some QuestionOutcome.no) = some Answer.no
outcome_key _ = Option.none

pub data Headline : Type 0 where
  headline_open headline_proposed headline_challenged headline_final : Headline
  headline_abandoned headline_unknown : Headline
  proposed_answer final_answer : Answer → Headline

abbrev headline_by : QuestionState → Option Answer → Headline
headline_by opened answer = headline_open
headline_by proposed Option.none = headline_proposed
headline_by proposed (some answer) = proposed_answer answer
headline_by challenged answer = headline_challenged
headline_by final Option.none = headline_final
headline_by final (some answer) = final_answer answer
headline_by abandoned answer = headline_abandoned
headline_by QuestionState.unknown answer = headline_unknown

unfoldable pub question_headline : RoundQuestion → Headline
unfolding outcome_key
question_headline q = headline_by q.state (outcome_key q.outcome)

pub record Window : Type 0 where
  pub is_open : Bool
  pub seconds_left : Option ℕ

abbrev is_proposed : QuestionState → Bool
is_proposed proposed = true
is_proposed _ = false

-- `left` is the floor of a quotient that may be negative, and then counts as zero.
abbrev window_at : Option ℕ → Option ℕ → Window
window_at closes Option.none = record { is_open = true; seconds_left = Option.none }
window_at Option.none (some now) = record { is_open = true; seconds_left = Option.none }
window_at (some closes) (some now) =
    let left = (closes - now) / 1000 in record { is_open = ltb 0 left; seconds_left = some left }

abbrev window_of : Option Text → (Text → Option ℕ) → Option ℕ → Window
window_of Option.none parse now = record { is_open = false; seconds_left = Option.none }
window_of (some List.[]) parse now = record { is_open = false; seconds_left = Option.none }
window_of (some at) parse now = window_at (parse at) now

-- `now` in milliseconds.
unfoldable pub challenge_window : (Text → Option ℕ) → RoundQuestion → Option ℕ → Window
challenge_window parse q now =
    if is_proposed q.state
    then window_of q.challenge_closes_at parse now
    else record { is_open = false; seconds_left = Option.none }

pub data Interest : Type 0 where
  none held unknown : Interest

abbrev interest_of : Option ℤ → Interest
interest_of Option.none = Interest.unknown
interest_of (some stake) = if ltb_ℤ (pos 0) stake then held else Interest.none

unfoldable pub proposer_interest : RoundQuestion → Interest
proposer_interest q = elim q.proposer_stake [
  | Option.none ↦ Interest.unknown
  | some t ↦ elim t [ List.[] ↦ Interest.unknown | c ∷ cs ↦ interest_of (big_int (c ∷ cs)) ]
]

abbrev same_answer : Answer → Answer → Bool
same_answer Answer.yes Answer.yes = true
same_answer Answer.no Answer.no = true
same_answer _ _ = false

unfoldable pub claim_favours_proposer : RoundQuestion → Option Answer → Bool
unfolding outcome_key
claim_favours_proposer q Option.none = false
claim_favours_proposer q (some side) = elim (outcome_key q.outcome) [
  | Option.none ↦ false
  | some answer ↦ same_answer answer side
]

-- `challenge` and `finalise`, as their guards; times in seconds. The sum of times reverts past 64
-- bits.
unfoldable pub challenge_accepts : QuestionState → ℕ → ℕ → ℕ → Bool
challenge_accepts state proposed_at window now =
    if is_proposed state
    then if ltb (proposed_at + window) (2 ^ 64) then ltb now (proposed_at + window) else false
    else false

unfoldable pub finalise_accepts : QuestionState → ℕ → ℕ → ℕ → Bool
finalise_accepts state proposed_at window now =
    if is_proposed state
    then if ltb (proposed_at + window) (2 ^ 64) then leb (proposed_at + window) now else false
    else false
