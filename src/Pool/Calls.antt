-- ===== src/Pool/Calls.antt =====
-- The calls of the pool that change its state, and a run of them.
use ghoststake.Prelude.{ℕ, ◌+◌, Bool, Option, none, some, List, [], ◌∷◌}
use ghoststake.Pool.{
  Curve, Caller, Pool, accrue, supply, withdraw, borrow, repay, absorb_bad_debt, withdraw_reserves,
}

pub data Op : Type 0 where
  accrues : Op
  supplies : (amount : ℕ) → (pays : Bool) → Op
  withdraws : (amount : ℕ) → Op
  borrows : (amount on_behalf_of : ℕ) → Op
  repays : (amount on_behalf_of : ℕ) → (pays : Bool) → Op
  absorbs : (user : ℕ) → Op
  takes_reserves : (amount : ℕ) → Op
  -- Somebody sends the pool tokens of their own accord.
  donates : (amount : ℕ) → Op

unfoldable pub apply_call : Curve → Caller → Pool → Op → Option Pool
apply_call c m p accrues = accrue c m.now p
apply_call c m p (supplies amount pays) = supply c m amount pays p
apply_call c m p (withdraws amount) = withdraw c m amount p
apply_call c m p (borrows amount user) = borrow c m amount user p
apply_call c m p (repays amount user pays) = repay c m amount user pays p
apply_call c m p (absorbs user) = absorb_bad_debt c m user p
apply_call c m p (takes_reserves amount) = withdraw_reserves m amount p
apply_call c m p (donates amount) = some (record p { cash = p.cash + amount })

-- A call that reverts changes nothing.
abbrev pub or_same : Pool → Option Pool → Pool
or_same p none = p
or_same p (some p') = p'

unfoldable pub run_calls : Curve → List (Caller × Op) → Pool → Pool
unfolding apply_call
run_calls c [] p = p
run_calls c ((m, op) ∷ ops) p = run_calls c ops (or_same p (apply_call c m p op))
