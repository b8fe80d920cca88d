-- ===== src/Market/Custody.antt =====
-- The money that the market contract holds (ghoststake-contracts/src/ParimutuelRound.sol): entering a
-- round, claiming and withdrawing fees, with the lifecycle of `Market` in between. A revert is
-- `none` and changes nothing. The stake asset is a parameter: a transfer moves exactly its amount,
-- one into the contract succeeds when `pays` says so, and one out of it succeeds when the contract
-- holds enough. Whose the market is and whether entries are paused are read off the contracts that
-- it inherits, and so are parts of a call. An account is a number, and zero is the zero address.
pub mod Contract
pub mod Sums
pub mod Covered
pub mod Solvent
pub mod Calls
use ghoststake.Prelude.{
  ℕ, zero, suc, ◌+◌, ◌-◌, ◌*◌, ◌/◌, ◌^◌, Bool, true, false, ◌||◌, ◌&&◌, not, Option, none, some,
  List, [], ◌∷◌, ◌++◌, ltb, leb, ◌==◌, if◌then◌else◌, get_elem?, length,
}
use ghoststake.Rounds.{Status, Round, Side, is_opened, wad}
use ghoststake.Market.{
  Stake, lock_round, resolve_round, void_unsettled_round, void_unlocked_round, open_round_accepts,
  claimable_of,
}

-- What an account has in a round: its stakes and claimed flag, and where its proceeds go.
pub record Holding : Type 0 where
  pub user : ℕ
  pub stake : Stake
  pub sink : ℕ

pub record Book : Type 0 where
  pub round : Round
  pub holdings : List Holding

-- `_rounds` from 1 on, each with its stakes; `balance` is what the stake asset says the contract
-- holds.
pub record State : Type 0 where
  pub books : List Book
  pub protocol_fees : ℕ
  pub balance : ℕ
  pub is_router : ℕ → Bool

pub record Terms : Type 0 where
  pub rake : ℕ
  pub entry_cutoff : ℕ
  pub lock_window : ℕ
  pub resolve_deadline : ℕ
  pub min_side_pool : ℕ

pub record Context : Type 0 where
  pub sender : ℕ
  pub by_owner : Bool
  pub entries_open : Bool
  pub now : ℕ

abbrev pub u256_mod : ℕ
u256_mod = 2 ^ 256

-- A mapping reads as zeros where nothing was written.
unfoldable pub holding_of : ℕ → List Holding → Holding
holding_of user [] = record {
  user = user;
  stake = record { up = 0; down = 0; claimed = false };
  sink = 0;
}
holding_of user (h ∷ hs) = let rest = holding_of user hs in if h.user == user then h else rest

unfoldable pub put : Holding → List Holding → List Holding
put new [] = new ∷ []
put new (h ∷ hs) = let rest = put new hs in if h.user == new.user then new ∷ hs else h ∷ rest

unfoldable pub set_at : List Book → ℕ → Book → List Book
set_at [] i b = []
set_at (x ∷ xs) zero b = b ∷ xs
set_at (x ∷ xs) (suc i) b = x ∷ set_at xs i b

-- `_rounds[roundId]`; round zero and those not opened yet are `Status.None`.
unfoldable pub book_at : State → ℕ → Option Book
book_at s zero = none
book_at s (suc i) = get_elem? s.books i

abbrev pub put_book : State → ℕ → Book → State
put_book s zero b = s
put_book s (suc i) b = record s { books = set_at s.books i b }

-- What follows on a book, where the round is known.
abbrev pub with_book {ℓ} : {A : Type ℓ} → Option Book → (Book → Option A) → Option A
with_book none f = none
with_book (some b) f = f b

-- The round's winner as a side.
abbrev pub winner_of : Round → Side
winner_of r = if r.winner == 0 then Side.up else Side.down

abbrev pub winner_code : Side → ℕ
winner_code Side.up = 0
winner_code Side.down = 1

-- `stakeOf[side] += amount` and the pool of that side with it.
abbrev pub add_stake : Stake → Side → ℕ → Stake
add_stake s Side.up amount = record s { up = s.up + amount }
add_stake s Side.down amount = record s { down = s.down + amount }

abbrev pub add_pool : Round → Side → ℕ → Round
add_pool r Side.up amount = record r { up_pool = r.up_pool + amount }
add_pool r Side.down amount = record r { down_pool = r.down_pool + amount }

abbrev pub stake_total : Stake → ℕ
stake_total s = s.up + s.down

-- `hasStake && existing != sink`
abbrev pub is_mixed : Holding → ℕ → Bool
is_mixed h sink = not (stake_total h.stake == 0) && not (h.sink == sink)

-- `settlementSinkOf` after the entry: a router becomes the sink of a holding that was empty.
abbrev pub sink_after : Holding → ℕ → ℕ
sink_after h sink = if not (sink == 0) && (stake_total h.stake == 0) then sink else h.sink

abbrev pub entered : Book → Holding → Side → ℕ → ℕ → Book
entered b h side amount sink = record {
  round = add_pool b.round side amount;
  holdings =
      put
        (record { user = h.user; stake = add_stake h.stake side amount; sink = sink_after h sink })
        b.holdings;
}

abbrev side_of_pool : Round → Side → ℕ
side_of_pool r Side.up = r.up_pool
side_of_pool r Side.down = r.down_pool

abbrev side_of_stake : Stake → Side → ℕ
side_of_stake s Side.up = s.up
side_of_stake s Side.down = s.down

-- The three checked sums of an entry.
abbrev pub sums_fit : Round → Stake → Side → ℕ → Bool
sums_fit r s side amount =
    ltb (stake_total s) u256_mod
    && (ltb (side_of_stake s side + amount) u256_mod && ltb (side_of_pool r side + amount) u256_mod)

unfoldable pub enter :
    Terms → Context → Book → (user : ℕ) → Side → (amount : ℕ) → (sink : ℕ) → Option Book
enter t c b user side amount sink =
    let h = holding_of user b.holdings in
    if not c.entries_open
    then none
    else if amount == 0
    then none
    else if not (is_opened b.round.status)
    then none
    else if ltb c.now b.round.open_time
    then none
    else if leb b.round.lock_time (c.now + t.entry_cutoff)
    then none
    else if is_mixed h sink
    then none
    else if not (sums_fit b.round h.stake side amount)
    then none
    else some (entered b h side amount sink)

-- A status that an operation of `Market` gives the round.
abbrev pub with_status : Book → Option Status → Option Book
with_status b none = none
with_status b (some status) = some (record b { round = record b.round { status = status } })

-- `totalPool`, checked, and the rake on it.
abbrev pub rake_on : Round → ℕ → ℕ
rake_on r rake = ((r.up_pool + r.down_pool) * rake) / wad

abbrev settled_as : Round → ℕ → ℕ → Status × Option Side → Option (Round × ℕ)
settled_as r rake price (status, none) = some (record r { status = status; close_price = price }, 0)
settled_as r rake price (status, some side) =
    if ltb (r.up_pool + r.down_pool) u256_mod
    then some (
      record r {
        status = status;
        close_price = price;
        winner = winner_code side;
        rake_taken = rake_on r rake;
      },
      rake_on r rake,
    )
    else none

abbrev settled_by : Round → ℕ → ℕ → Option (Status × Option Side) → Option (Round × ℕ)
settled_by r rake price none = none
settled_by r rake price (some outcome) = settled_as r rake price outcome

-- The round after `resolveRound`, and the fees that it adds.
unfoldable pub settle_round : Terms → Context → Round → Option ℕ → Option (Round × ℕ)
settle_round t c r none = none
settle_round t c r (some price) = settled_by r t.rake price (resolve_round r (some price) c.now)

unfoldable pub claimable_by : Book → ℕ → ℕ
unfolding holding_of
claimable_by b user = claimable_of b.round (winner_of b.round) (holding_of user b.holdings).stake

-- The book with the claim of `h` marked.
abbrev pub claimed_book : Book → Holding → Book
claimed_book b h = record b {
  holdings = put (record h { stake = record h.stake { claimed = true } }) b.holdings;
}

-- A transfer out of the contract; what follows is on the state with the amount gone.
abbrev pub pay_out : State → ℕ → Option State
pay_out s amount =
    if ltb s.balance amount then none else some (record s { balance = s.balance - amount })

-- `accepts` is whether the recipient's hook, if there is one, returns.
unfoldable pub claim_on : State → ℕ → (user : ℕ) → (accepts : Bool) → Book → Option State
claim_on s id user accepts b =
    let h = holding_of user b.holdings in
    if h.stake.claimed
    then none
    else if claimable_by b user == 0
    then none
    else if not (h.sink == 0) && not accepts
    then none
    else pay_out (put_book s id (claimed_book b h)) (claimable_by b user)

unfoldable pub claim : State → ℕ → (user : ℕ) → (accepts : Bool) → Option State
claim s id user accepts = with_book (book_at s id) (claim_on s id user accepts)

unfoldable pub withdraw_fees : Context → State → ℕ → Option State
withdraw_fees c s amount =
    if not c.by_owner
    then none
    else if amount == 0
    then none
    else if ltb s.protocol_fees amount
    then none
    else pay_out (record s { protocol_fees = s.protocol_fees - amount }) amount
