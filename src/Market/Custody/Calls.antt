-- ===== src/Market/Custody/Calls.antt =====
-- Every call of the contract keeps it solvent, and so does any run of them.
use ghoststake.Prelude.{
  ℕ, ◌+◌, ◌≤◌, ◌≡◌, refl, Bool, true, false, not, List, [], ◌∷◌, ◌++◌, arith, if◌then◌else◌, ◌==◌,
  ltb, Option, none, some, All-append, Option-cases, inl, inr, ◌⊎◌,
}
use ghoststake.Rounds.{Status, Round, Side, wad}
use ghoststake.Market.{lock_round, void_unsettled_round, void_unlocked_round, open_round_accepts}
use ghoststake.Market.Custody.{Book, State, Terms, Context, enter, with_status, withdraw_fees}
use ghoststake.Market.Custody.Contract.{
  Op, apply_call, run_calls, deployed, opened_book, enter_paid, or_same,
}
use ghoststake.Market.Custody.Sums.{owed}
use ghoststake.Market.Custody.Covered.{
  IsPooled, IsCovered, IsRunning, enter-IsCovered, status-IsCovered,
}
use ghoststake.Market.Custody.Solvent.{
  some_inj, IsSolvent, owed_all, store-IsSolvent, resolve-IsSolvent, claim-IsSolvent,
}

-- The statuses that an operation may give, and from which.
abbrev Ends : Round → Option Status → Type 0
Ends r o = (st : Status) → o ≡ some st → IsRunning r × ((st ≡ Status.void) ⊎ (st ≡ Status.locked))

with_status-IsCovered :
    (b b' : Book) (o : Option Status)
    → Ends b.round o
    → IsPooled b
    → with_status b o ≡ some b'
    → IsCovered b b' 0 0
with_status-IsCovered b b' none k p e = cc
with_status-IsCovered b b' (some st) k p e =
    let (run_calls, ends) = k st refl in
    let covered = status-IsCovered b st run_calls ends p in
    let same : b' ≡ record b { round = record b.round { status = st } } = cc in rw same covered

lock-Ends :
    (t : Terms) (c : Context) (r : Round)
    → Ends r (lock_round r t.min_side_pool t.lock_window c.now)
unfolding lock_round
lock-Ends t c r st e = ground arith

unsettled-Ends :
    (t : Terms) (c : Context) (r : Round)
    → Ends r (void_unsettled_round r t.resolve_deadline c.by_owner c.now)
unfolding void_unsettled_round
unsettled-Ends t c r st e = ground arith

unlocked-Ends :
    (t : Terms) (c : Context) (r : Round) → Ends r (void_unlocked_round r t.lock_window c.now)
unfolding void_unlocked_round
unlocked-Ends t c r st e = ground arith

-- What follows a guard that did not revert.
past_guard {ℓ} :
    {A : Type ℓ} (b : Bool) (o : Option A) {a : A}
    → (if b then none else o) ≡ some a
    → (b ≡ false) × (o ≡ some a)
past_guard true o e = cc
past_guard false o e = (refl, e)

enter_paid-IsSolvent :
    (t : Terms) (c : Context) (s s' : State) (id user : ℕ) (side : Side) (amount sink : ℕ)
    (pays : Bool)
    → IsSolvent s
    → enter_paid t c s id user side amount sink pays ≡ some s'
    → IsSolvent s'
enter_paid-IsSolvent t c s s' id user side amount sink pays h e =
    store-IsSolvent s s' id amount (λ b. enter t c b user side amount sink) h
      (λ b b' p got. enter-IsCovered t c b b' user side amount sink p got)
      (past_guard (not pays) _ e).1

of_some : (s s' : State) → IsSolvent s → some s ≡ some s' → IsSolvent s'
of_some s s' h e = rw (← some_inj e) h

owed_all-append : (xs ys : List Book) → owed_all (xs ++ ys) ≡ owed_all xs + owed_all ys
owed_all-append [] ys = omega arith
owed_all-append (x ∷ xs) ys = omega (arith, owed_all-append xs ys)

open-IsSolvent :
    (s : State) (open_time lock_time close_time strike_price : ℕ)
    → IsSolvent s
    → IsSolvent (record s {
      books = s.books ++ opened_book open_time lock_time close_time strike_price ∷ [];
    })
unfolding owed
open-IsSolvent s open_time lock_time close_time strike_price h =
    let b = opened_book open_time lock_time close_time strike_price in
    record {
      pooled = All-append IsPooled s.books (b ∷ []) h.pooled ((refl, refl), tt);
      covered = omega (arith, h.covered, owed_all-append s.books (b ∷ []));
    }

withdraw-IsSolvent :
    (c : Context) (s s' : State) (amount : ℕ)
    → IsSolvent s
    → withdraw_fees c s amount ≡ some s'
    → IsSolvent s'
unfolding withdraw_fees
withdraw-IsSolvent c s s' amount h e =
    let (enough, paid) =
      past_guard (ltb s.protocol_fees amount) _
        (past_guard (amount == 0) _ (past_guard (not c.by_owner) _ e).1).1 in
    let (held, out) = past_guard (ltb s.balance amount) _ paid in
    of_some _ s' (record { pooled = h.pooled; covered = ground (arith, h.covered) }) out

-- Whoever calls what and when, a call that goes through leaves the contract holding what it owes,
-- for any rake up to one.
pub apply_call-IsSolvent :
    (t : Terms) (c : Context) (s s' : State) (op : Op)
    → t.rake ≤ wad
    → IsSolvent s
    → apply_call t c s op ≡ some s'
    → IsSolvent s'
unfolding apply_call
apply_call-IsSolvent t c s s' (Op.open_round o l k strike) low h e =
    of_some _ s' (open-IsSolvent s o l k strike h)
      (past_guard (not (open_round_accepts o l k strike t.entry_cutoff c.now)) _
        (past_guard (not c.entries_open) _ (past_guard (not c.by_owner) _ e).1).1).1
apply_call-IsSolvent t c s s' (Op.take_position id side amount pays) low h e =
    enter_paid-IsSolvent t c s s' id c.sender side amount 0 pays h e
apply_call-IsSolvent t c s s' (Op.take_position_for id user side amount pays) low h e =
    enter_paid-IsSolvent t c s s' id user side amount c.sender pays h
      (past_guard (user == 0) _ (past_guard (not (s.is_router c.sender)) _ e).1).1
apply_call-IsSolvent t c s s' (Op.lock id) low h e =
    store-IsSolvent s s' id 0 _ h
      (λ b b' p got. with_status-IsCovered b b' _ (lock-Ends t c b.round) p got) e
apply_call-IsSolvent t c s s' (Op.resolve id reads) low h e =
    resolve-IsSolvent t c s s' id reads low h e
apply_call-IsSolvent t c s s' (Op.void_unsettled id) low h e =
    store-IsSolvent s s' id 0 _ h
      (λ b b' p got. with_status-IsCovered b b' _ (unsettled-Ends t c b.round) p got) e
apply_call-IsSolvent t c s s' (Op.void_unlocked id) low h e =
    store-IsSolvent s s' id 0 _ h
      (λ b b' p got. with_status-IsCovered b b' _ (unlocked-Ends t c b.round) p got) e
apply_call-IsSolvent t c s s' (Op.collect id user accepts) low h e =
    claim-IsSolvent s s' id user accepts h e
apply_call-IsSolvent t c s s' (Op.set_router router allowed) low h e =
    of_some _ s' (record { pooled = h.pooled; covered = h.covered })
      (past_guard (router == 0) _ (past_guard (not c.by_owner) _ e).1).1
apply_call-IsSolvent t c s s' (Op.withdraw amount) low h e = withdraw-IsSolvent c s s' amount h e
apply_call-IsSolvent t c s s' (Op.donate amount) low h e =
    of_some _ s' (record { pooled = h.pooled; covered = omega (arith, h.covered) }) e

or_same-IsSolvent :
    (t : Terms) (c : Context) (s : State) (op : Op)
    → t.rake ≤ wad
    → IsSolvent s
    → IsSolvent (or_same s (apply_call t c s op))
or_same-IsSolvent t c s op low h = elim (Option-cases (apply_call t c s op)) [
  | inl reverts ↦ rw reverts h
  | inr (s', goes) ↦ rw goes (apply_call-IsSolvent t c s s' op low h goes)
]

run_from-IsSolvent :
    (t : Terms) (calls : List (Context × Op)) (s : State)
    → t.rake ≤ wad
    → IsSolvent s
    → IsSolvent (run_calls t calls s)
unfolding run_calls
run_from-IsSolvent t [] s low h = h
run_from-IsSolvent t ((c, op) ∷ calls) s low h =
    run_from-IsSolvent t calls (or_same s (apply_call t c s op)) low
      (or_same-IsSolvent t c s op low h)

-- For a rake up to one, after any calls by anybody at any times from the deployment on, reverted
-- ones included, what the market contract holds covers its fees and everything that its rounds may
-- still have to pay, and the pools of each round are the sums of its stakes.
pub run_calls-IsSolvent :
    (t : Terms) (calls : List (Context × Op))
    → t.rake ≤ wad
    → IsSolvent (run_calls t calls deployed)
run_calls-IsSolvent t calls low =
    run_from-IsSolvent t calls deployed low (record { pooled = tt; covered = omega arith })
