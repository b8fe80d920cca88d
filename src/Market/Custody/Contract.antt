-- ===== src/Market/Custody/Contract.antt =====
-- The calls of the market contract that change its state, the ones of its administration included,
-- and a run of them.
use ghoststake.Prelude.{
  ℕ, ◌+◌, Bool, false, not, Option, none, some, List, [], ◌∷◌, ◌++◌, ◌==◌, if◌then◌else◌,
}
use ghoststake.Rounds.{Status, Round, Side}
use ghoststake.Market.{lock_round, void_unsettled_round, void_unlocked_round, open_round_accepts}
use ghoststake.Market.Custody.{
  Book, State, Terms, Context, book_at, put_book, with_book, with_status, enter, settle_round,
  claim, withdraw_fees,
}

pub data Op : Type 0 where
  open_round : (open_time lock_time close_time strike_price : ℕ) → Op
  take_position : (id : ℕ) → Side → (amount : ℕ) → (pays : Bool) → Op
  take_position_for : (id user : ℕ) → Side → (amount : ℕ) → (pays : Bool) → Op
  lock : (id : ℕ) → Op
  -- `reads` is the price that the oracle gives for the feed round named.
  resolve : (id : ℕ) → (reads : Option ℕ) → Op
  void_unsettled void_unlocked : (id : ℕ) → Op
  collect : (id user : ℕ) → (accepts : Bool) → Op
  set_router : (router : ℕ) → Bool → Op
  withdraw : (amount : ℕ) → Op
  -- Somebody sends the contract tokens of their own accord.
  donate : (amount : ℕ) → Op

abbrev pub opened_book : ℕ → ℕ → ℕ → ℕ → Book
opened_book open_time lock_time close_time strike_price = record {
  round = record {
    open_time = open_time;
    lock_time = lock_time;
    close_time = close_time;
    status = Status.opened;
    winner = 0;
    lock_price = strike_price;
    close_price = 0;
    lock_oracle_round_id = 0;
    up_pool = 0;
    down_pool = 0;
    rake_taken = 0;
  };
  holdings = [];
}

-- The book that an operation leaves, put back; with the stake that comes in, if any.
abbrev pub store : State → ℕ → ℕ → Option Book → Option State
store s id amount none = none
store s id amount (some b) =
    let s' = put_book s id b in some (record s' { balance = s'.balance + amount })

abbrev pub store_settled : State → ℕ → Book → Option (Round × ℕ) → Option State
store_settled s id b none = none
store_settled s id b (some (round, fees)) =
    let s' = put_book s id (record b { round = round }) in
    some (record s' { protocol_fees = s'.protocol_fees + fees })

abbrev pub enter_paid : Terms → Context → State → ℕ → ℕ → Side → ℕ → ℕ → Bool → Option State
enter_paid t c s id user side amount sink pays =
    if not pays
    then none
    else with_book (book_at s id) (λ b. store s id amount (enter t c b user side amount sink))

unfoldable pub apply_call : Terms → Context → State → Op → Option State
apply_call t c s (open_round open_time lock_time close_time strike_price) =
    if not c.by_owner
    then none
    else if not c.entries_open
    then none
    else if not
        (open_round_accepts open_time lock_time close_time strike_price t.entry_cutoff c.now)
    then none
    else some (record s {
      books = s.books ++ opened_book open_time lock_time close_time strike_price ∷ [];
    })
apply_call t c s (take_position id side amount pays) =
    enter_paid t c s id c.sender side amount 0 pays
apply_call t c s (take_position_for id user side amount pays) =
    if not (s.is_router c.sender)
    then none
    else if user == 0
    then none
    else enter_paid t c s id user side amount c.sender pays
apply_call t c s (lock id) =
    with_book (book_at s id)
      (λ b. store s id 0 (with_status b (lock_round b.round t.min_side_pool t.lock_window c.now)))
apply_call t c s (resolve id reads) =
    with_book (book_at s id) (λ b. store_settled s id b (settle_round t c b.round reads))
apply_call t c s (void_unsettled id) = with_book (book_at s id) (λ b.
    store s id 0 (with_status b (void_unsettled_round b.round t.resolve_deadline c.by_owner c.now)))
apply_call t c s (void_unlocked id) =
    with_book (book_at s id)
      (λ b. store s id 0 (with_status b (void_unlocked_round b.round t.lock_window c.now)))
apply_call t c s (collect id user accepts) = claim s id user accepts
apply_call t c s (set_router router allowed) =
    if not c.by_owner
    then none
    else if router == 0
    then none
    else some (record s { is_router = λ a. if a == router then allowed else s.is_router a })
apply_call t c s (withdraw amount) = withdraw_fees c s amount
apply_call t c s (donate amount) = some (record s { balance = s.balance + amount })

-- A call that reverts changes nothing.
abbrev pub or_same : State → Option State → State
or_same s none = s
or_same s (some s') = s'

unfoldable pub run_calls : Terms → List (Context × Op) → State → State
unfolding apply_call
run_calls t [] s = s
run_calls t ((c, op) ∷ ops) s = run_calls t ops (or_same s (apply_call t c s op))

abbrev pub deployed : State
deployed = record { books = []; protocol_fees = 0; balance = 0; is_router = λ a. false }
