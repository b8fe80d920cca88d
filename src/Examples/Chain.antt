-- ===== src/Examples/Chain.antt =====
-- Reads of a small chain, a run of the market contract, and the configuration of a build.

use ghoststake.Prelude.{
  ℕ, ◌+◌, ◌-◌, ◌*◌, ◌≡◌, refl, true, false, Option, some, none, List, [], ◌∷◌, map, filter, All,
  filter_some, arith, ◌==◌, length, ◌++◌,
}
use ghoststake.Text.{Text, codes}
use ghoststake.Nav.{same}
use ghoststake.Text.Order.{text_ltb}
use ghoststake.Rounds.{Round, Status, Phase, Side}
use ghoststake.Markets.{Market, FeedKind}
use ghoststake.Market.{open_round_accepts, lock_round, resolve_round, claimable_of}
use ghoststake.Market.Custody.Sums.{owed, reserved}
use ghoststake.Market.Custody.{
  enter, settle_round, book_at, put, Book, Holding, State, Terms, Context, claimable_by, claim,
  claimed_book, holding_of, set_at,
}
use ghoststake.Market.Custody.Contract.{Op, apply_call, run_calls, deployed}
use ghoststake.Market.Custody.Solvent.{IsSolvent, claim_paid}
use ghoststake.Market.Custody.Calls.{run_calls-IsSolvent}
use ghoststake.Reads.{Fn, Call, Value, ReadResult}
use ghoststake.Reads.Rows.{RoundKey, list_rounds, round_calls, stake_calls, claimables}
use ghoststake.Reads.Rows.Laws.{own_row, list_rounds-own, IsPayable, claimables-IsPayable}
use ghoststake.Reads.Loans.{Labelled}
use ghoststake.Pseudo.{pseudo_message, index_of}
use ghoststake.Pseudo.Ends.{is_tagged-IsTagged, pseudo_message_ends}
use ghoststake.Format.{HealthBand}
use ghoststake.Alerts.{Alert, Tone, Words, unseen}
use ghoststake.Alerts.Seen.{Storage, effect}
use ghoststake.Csp.{Url, CspInput, policy, directives}
use ghoststake.Env.{Variable, env_problems, is_address}
use ghoststake.Env.Problems.{is_refused, variables, env_problems_lem}
use ghoststake.Stalled.{mount, render, stalled, beats, Beat, stall_after_ms}
use ghoststake.Stalled.Wait.{stalled_iff_waited}

abbrev settled_round : Round
settled_round = record {
  open_time = 100;
  lock_time = 400;
  close_time = 700;
  status = Status.resolved;
  winner = 0;
  lock_price = 2000;
  close_price = 2100;
  lock_oracle_round_id = 0;
  up_pool = 300;
  down_pool = 100;
  rake_taken = 8;
}

-- Each function's answer; the second round of a market cannot be read.
abbrev answer : Fn → ReadResult
answer (Fn.rounds id) = elim (id == 2) [
  | true ↦ ReadResult.failure
  | false ↦ ReadResult.success (Value.round settled_round)
]
answer (Fn.phase_of id) = ReadResult.success (Value.phase Phase.resolved)
answer (Fn.stake_of id account Side.up) = ReadResult.success (Value.num 50)
answer (Fn.stake_of id account Side.down) = ReadResult.success (Value.num 0)
answer (Fn.claimable_of id account) = ReadResult.success (Value.num 65)
answer (Fn.claimed id account) = ReadResult.success (Value.flag false)
answer Fn.entry_cutoff = ReadResult.success (Value.num 30)
answer Fn.min_side_pool = ReadResult.success (Value.num 100)
answer Fn.rake = ReadResult.success (Value.num 20)
answer Fn.lock_window = ReadResult.success (Value.num 60)
answer Fn.resolve_deadline = ReadResult.success (Value.num 600)
answer Fn.owner = ReadResult.success (Value.string (codes "0xAb"))
answer Fn.oracle = ReadResult.success (Value.string (codes "0x0c"))
answer Fn.feed = ReadResult.success (Value.string (codes "0x0f"))
answer Fn.description = ReadResult.success (Value.string (codes "ETH / USD"))
answer Fn.read_latest = ReadResult.success (Value.latest true 2050 9)
answer (Fn.get_round_data id) = ReadResult.success (Value.print id 2050 640 650 id)
answer Fn.latest_round_data = ReadResult.success (Value.print 9 2050 640 650 9)
answer (Fn.balance_of account) = ReadResult.success (Value.num 7)
answer (Fn.debt_of account) = ReadResult.success (Value.num 40)
answer _ = ReadResult.failure

abbrev chain : Call → ReadResult
chain c = answer c.function

abbrev eth : Market
eth = record {
  key = codes "0xa1";
  address = codes "0xA1";
  router = codes "0xC1";
  horizon = none;
  enabled = true;
  kind_hint = FeedKind.unknown;
}

abbrev keys : List RoundKey
keys = record { market = eth; id = 2 } ∷ record { market = eth; id = 1 } ∷ []

abbrev alice : Text
alice = codes "0xAB"

list_rounds-own_example :
    list_rounds keys
      (some (map chain (round_calls keys)))
      (some (map chain (stake_calls alice keys)))
    ≡ filter_some (map (own_row chain alice) keys)
list_rounds-own_example = list_rounds-own chain alice keys

claimables-IsPayable_example : All (IsPayable chain alice) (
    claimables (
      list_rounds keys
        (some (map chain (round_calls keys)))
        (some (map chain (stake_calls alice keys)))))
claimables-IsPayable_example = claimables-IsPayable chain alice keys

-- One claim is offered: the first round's.
one_claim :
    length (
      claimables (
        list_rounds keys
          (some (map chain (round_calls keys)))
          (some (map chain (stake_calls alice keys)))))
    ≡ 1
unfolding claimables list_rounds round_calls stake_calls
one_claim = refl

abbrev gold_token : Labelled
gold_token = record {
  terms = record {
    token = codes "0x61";
    feed = codes "0x62";
    token_decimals = 2;
    max_ltv = 500000000000000000;
    liquidation_threshold = 600000000000000000;
    liquidation_bonus = 0;
    max_age = 3600;
    liquidation_max_age = 7200;
  };
  symbol = codes "GLD";
  name = codes "Gold";
}

-- A market with one round: account 1 stakes 300 on Up, account 2 stakes 100 on Down, and it settles
-- above the strike.
abbrev terms : Terms
terms = record {
  rake = 20000000000000000;
  entry_cutoff = 30;
  lock_window = 60;
  resolve_deadline = 600;
  min_side_pool = 100;
}

abbrev at : (sender now : ℕ) → Context
at sender now = record { sender = sender; by_owner = sender == 9; entries_open = true; now = now }

abbrev settled_calls : List (Context × Op)
settled_calls =
    (at 9 50, Op.open_round 100 400 700 2000)
    ∷ (at 1 150, Op.take_position 1 Side.up 300 true)
    ∷ (at 2 160, Op.take_position 1 Side.down 100 true)
    ∷ (at 2 390, Op.take_position 1 Side.down 100 true)
    ∷ (at 5 410, Op.lock 1)
    ∷ (at 5 710, Op.resolve 1 (some 2100))
    ∷ []

abbrev settled_market : State
settled_market = run_calls terms settled_calls deployed

run_calls-IsSolvent_example : IsSolvent (run_calls terms settled_calls deployed)
run_calls-IsSolvent_example = run_calls-IsSolvent terms settled_calls (omega arith)

-- The rake is 8, and the entry past the cutoff was refused.
settled_fees : settled_market.protocol_fees ≡ 8
unfolding run_calls apply_call enter settle_round book_at set_at holding_of put open_round_accepts
    lock_round resolve_round
settled_fees = refl

settled_balance : settled_market.balance ≡ 400
unfolding run_calls apply_call enter settle_round book_at set_at holding_of put open_round_accepts
    lock_round resolve_round
settled_balance = refl

abbrev up_holding : Holding
up_holding = record { user = 1; stake = record { up = 300; down = 0; claimed = false }; sink = 0 }

abbrev down_holding : Holding
down_holding = record { user = 2; stake = record { up = 0; down = 100; claimed = false }; sink = 0 }

abbrev settled_book : Book
settled_book = record { round = settled_round; holdings = up_holding ∷ down_holding ∷ [] }

abbrev small_market : State
small_market = record {
  books = settled_book ∷ [];
  protocol_fees = 8;
  balance = 400;
  is_router = λ a. false;
}

small_market-IsSolvent : IsSolvent small_market
unfolding owed reserved claimable_of
small_market-IsSolvent = record { pooled = ((refl, refl), tt); covered = omega arith }

claim_paid_example :
    claim small_market 1 1 true
    ≡ some (record small_market {
      books =
          set_at small_market.books 0
            (claimed_book settled_book (holding_of 1 settled_book.holdings));
      balance = 400 - claimable_by settled_book 1;
    })
unfolding claimable_by claimable_of holding_of
claim_paid_example =
    claim_paid small_market 0 1 settled_book small_market-IsSolvent refl refl (λ e. cc)

-- "Pay <b>now</b>, {n, plural, one {# day} other {# days}}"
abbrev message : Text
message = codes "Pay <b>now</b>, {n, plural, one {# day} other {# days}}"

pseudo_message_ends_example : (out : Text) × (pseudo_message 200 message ≡ some out)
unfolding index_of
pseudo_message_ends_example =
    pseudo_message_ends message 200 (is_tagged-IsTagged message refl) (omega arith)

-- A build whose vault address is short and whose chain id is not a number.
abbrev build : Variable → Option Text
build Variable.vault_address = some (codes "0x12")
build Variable.chain_id = some (codes "main")
build Variable.app_url = some (codes "https://example.com")
build _ = none

abbrev no_number : Text → Option ℕ
no_number t = none

abbrev https : Text → Option Text
https t = some (codes "https:")

env_problems_lem_example :
    map (λ p. p.variable) (env_problems no_number https build)
    ≡ filter (is_refused no_number https build) variables
env_problems_lem_example = env_problems_lem no_number https build

two_problems :
    filter (is_refused no_number https build) variables
    ≡ Variable.chain_id ∷ Variable.vault_address ∷ []
unfolding is_address text_ltb same
two_problems = refl

-- Traditional Chinese first, then Spanish: the reader gets Spanish.
abbrev header : Text
header = codes "zh-TW,en;q=0.3,es;q=0.8"

abbrev quality : Text → ℕ
quality [] = 0
quality (c ∷ []) = 10 * (c - b'0')
quality (c ∷ d ∷ t) = 10 * (c - b'0') + elim t [ [] ↦ 0 | e ∷ u ↦ e - b'0' ]

abbrev parts : Text → Url
parts u = record { protocol = codes "https:"; host = u; origin = codes "https://" ++ u }

abbrev page : CspInput
page = record {
  nonce = codes "r4nd0m";
  is_dev = false;
  api_url = codes "api.example.com";
  rpc_url = codes "rpc.example.com";
  wallet_connect = true;
}

thirteen_directives : length (policy parts page) ≡ 13
unfolding policy directives same
thirteen_directives = refl

abbrev warning : Alert
warning = record {
  id = codes "health:danger";
  tone = Tone.negative;
  words = Words.health_words HealthBand.danger (codes "1.05");
}

abbrev won_alert : Alert
won_alert = record {
  id = codes "claim:0xa1:4";
  tone = Tone.positive;
  words = Words.claim_words (codes "5.00") (codes "USDC") 1;
}

-- The warning was announced before.
abbrev stored : Storage
stored key = some (codes "health:danger" ∷ [])

-- The first run announces the win alone.
first_run :
    map (λ a. a.id) (effect true (some alice) (warning ∷ won_alert ∷ []) stored).0
    ≡ codes "claim:0xa1:4" ∷ []
unfolding effect unseen same
first_run = refl

-- An attempt under key 1 waits its eight seconds, rendered again in between.
stalled_iff_waited_example :
    stalled (
      beats
        (render true 1 stall_after_ms (mount false 0 stall_after_ms))
        (Beat.passed 5000 ∷ Beat.rerendered ∷ Beat.passed 3000 ∷ []))
    ≡ true
stalled_iff_waited_example =
    stalled_iff_waited (mount false 0 stall_after_ms) 1 stall_after_ms
      (Beat.passed 5000 ∷ Beat.rerendered ∷ Beat.passed 3000 ∷ []) refl refl (omega arith)

-- Under the key of a wait that was answered late, the next wait is stalled at once.
same_key_stalled :
    stalled (
      render true 1 stall_after_ms (
        render false 1 stall_after_ms
          (beats (mount true 1 stall_after_ms) (Beat.passed 9000 ∷ []))))
    ≡ true
unfolding beats
same_key_stalled = refl
