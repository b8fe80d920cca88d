-- ===== src/Examples/Forms.antt =====
-- Claims, writes, alerts, lists and navigation.
use mathlib.Core.List.{Perm}
use ghoststake.Prelude.{
  ℕ, ◌+◌, ◌*◌, ◌/◌, ◌≤◌, ◌<◌, ◌≡◌, refl, true, false, Option, none, some, List, [], ◌∷◌, arith,
  ◌==◌, if◌then◌else◌, map,
}
use ghoststake.Prelude.Int.{pos, negsuc}
use ghoststake.Text.{Text, codes}
use ghoststake.Rounds.{Round, Status, Phase}
use ghoststake.Claims.{
  Claimable, ClaimOutcome, claimed, cancelled, order_claims, summarise, Reply, mined, threw,
  ClaimAll, run,
}
use ghoststake.Claims.Order.{IsDescending, worth, order_claims_lem}
use ghoststake.Claims.Run.{claim_of, run_lem}
use ghoststake.Transaction.{
  TxState, Toast, Stage, at_wallet, Send, Hook, Event, begin, stop, hashed, step, steps, mounted,
  coded, no_connection,
}
use ghoststake.Transaction as Transaction
use ghoststake.Transaction.Safety.{IsSound, steps-mounted-IsSound}
use ghoststake.Transaction.Toasts.{toast_stuck}
use ghoststake.Markets.{Market, FeedKind}
use ghoststake.Text.Order.{text_ltb}
use ghoststake.MarketList.{MarketRound, Summary, by_activity}
use ghoststake.Resolution.{
  RoundQuestion, QuestionState, QuestionOutcome, challenge_window, challenge_accepts,
  finalise_accepts,
}
use ghoststake.Resolution.Challenge.{challenge_window-challenge_accepts}

abbrev small : Claimable
small = record { market = codes "0xA1"; round_id = 1; amount = 5 }

abbrev large : Claimable
large = record { market = codes "0xB2"; round_id = 2; amount = 9 }

abbrev outcomes : List ClaimOutcome
outcomes = claimed large (codes "0xaa") ∷ cancelled small ∷ []

order_claims_lem_example :
    Perm (order_claims (small ∷ large ∷ [])) (small ∷ large ∷ [])
    × IsDescending (order_claims (small ∷ large ∷ []))
    × ((n : ℕ) → worth n (order_claims (small ∷ large ∷ [])) ≡ worth n (small ∷ large ∷ []))
order_claims_lem_example = order_claims_lem (small ∷ large ∷ [])

-- The first claim is collected, and the user refuses the second.
abbrev reply : ℕ → Claimable → Reply
reply index claim = if index == 0 then mined (codes "0xaa") false else threw true none

abbrev idle_run : ClaimAll
idle_run = record { outcomes = []; running = false }

run_lem_example :
    (let s' = run true reply (small ∷ large ∷ []) idle_run in
      (s'.running ≡ false)
      × (map claim_of s'.outcomes ≡ order_claims (small ∷ large ∷ []))
      × ((summarise s'.outcomes).cancelled ≤ 1)
      × (0 < (summarise s'.outcomes).remaining → (summarise s'.outcomes).cancelled ≡ 1))
run_lem_example = run_lem reply (small ∷ large ∷ []) idle_run refl (λ e. cc)

run_collects : (run true reply (small ∷ large ∷ []) idle_run).outcomes ≡ outcomes
unfolding run
run_collects = refl

steps-mounted-IsSound_example :
    IsSound (steps (begin ∷ begin ∷ hashed 1 (codes "0xaa") true ∷ []) mounted)
steps-mounted-IsSound_example =
    steps-mounted-IsSound (begin ∷ begin ∷ hashed 1 (codes "0xaa") true ∷ [])

abbrev abandoned : Hook
abandoned = steps (begin ∷ stop ∷ []) mounted

abbrev first_send : Send
first_send = record { toast = 1; stage = at_wallet }

toast_stuck_example :
    (steps
        (Transaction.mined 1 false ∷ [])
        (step (hashed 1 (codes "0xaa") true) (steps (begin ∷ stop ∷ []) mounted))).toasts
      1
    ≡ some (Toast.sent (codes "0xaa"))
unfolding steps step
toast_stuck_example =
    toast_stuck (begin ∷ stop ∷ []) (Transaction.mined 1 false ∷ []) 1 first_send (codes "0xaa")
      true refl refl (omega arith)

abbrev round : Round
round = record {
  open_time = 100;
  lock_time = 400;
  close_time = 700;
  status = Status.opened;
  winner = 0;
  lock_price = 0;
  close_price = 0;
  lock_oracle_round_id = 0;
  up_pool = 300;
  down_pool = 100;
  rake_taken = 0;
}

abbrev busy_market : Market
busy_market = record {
  key = codes "0xa1";
  address = codes "0xA1";
  router = codes "0xC1";
  horizon = none;
  enabled = true;
  kind_hint = FeedKind.unknown;
}

abbrev live_round : MarketRound
live_round = record {
  market = busy_market;
  id = 4;
  round = round;
  phase = some Phase.opened;
  up = some 0;
  down = some 0;
  claimable = some 0;
  is_claimed = some false;
}

abbrev busy : Summary
busy = record { market_key = codes "0xa1"; live = some live_round; volume = 400 }

abbrev quiet : Summary
quiet = record { market_key = codes "0xb2"; live = some live_round; volume = 10 }

abbrev closed : Summary
closed = record { market_key = codes "0xc3"; live = none; volume = 0 }

-- A busier market comes before a quieter one, and both before one without a round.
busy_first : by_activity busy quiet ≡ negsuc 0
unfolding by_activity text_ltb
busy_first = refl

closed_last : by_activity closed quiet ≡ pos 1
unfolding by_activity text_ltb
closed_last = refl

-- A reader of one deadline.
abbrev parse : Text → Option ℕ
parse at = some 90000

abbrev question : RoundQuestion
question = record {
  oracle = none;
  state = QuestionState.proposed;
  outcome = some QuestionOutcome.yes;
  proposer = none;
  proposed_at = none;
  evidence_uri = none;
  evidence_digest = none;
  proposer_stake = none;
  challenge_closes_at = some (codes "1970-01-01T00:01:30Z");
  challenger = none;
  challenged_at = none;
  ruling_due_at = none;
  arbiter = none;
  ruled_at = none;
  reason_uri = none;
  paid_to = none;
  abandoned_at = none;
}

challenge_window-challenge_accepts_example :
    (let shown = challenge_window parse question (some 50500) in
      (shown.is_open ≡ true → challenge_accepts QuestionState.proposed 30 60 (50500 / 1000) ≡ true)
      × (finalise_accepts QuestionState.proposed 30 60 (50500 / 1000) ≡ true
          → shown.is_open ≡ false)
      × (shown.is_open ≡ false → (30 + 60) * 1000 < 50500 + 1000)
      × (shown.is_open ≡ true
          → (left : ℕ) × (shown.seconds_left ≡ some left)
            × (50500 + left * 1000 ≤ (30 + 60) * 1000)
            × ((30 + 60) * 1000 < 50500 + (left + 1) * 1000)))
challenge_window-challenge_accepts_example =
    challenge_window-challenge_accepts parse question b'1' (codes "970-01-01T00:01:30Z") 30 60 50500
      refl refl refl (omega arith)
