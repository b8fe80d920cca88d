-- ===== src/Claims.antt =====
-- What a wallet can collect, and a run over it: ghoststake-frontend/src/lib/claims.ts and
-- ghoststake-frontend/src/hooks/useClaimAll.ts. Amounts are unsigned, as the contract reports them.
pub mod Order
pub mod Run
use ghoststake.Prelude.{
  ℕ, zero, suc, ◌+◌, Bool, true, false, not, ◌&&◌, ◌||◌, Option, none, some, List, [], ◌∷◌, ◌++◌,
  map, ltb, leb, ◌==◌, if◌then◌else◌, length, filter,
}
use ghoststake.Text.{Text, to_string}

pub record Claimable : Type 0 where
  pub market : Text
  pub round_id : ℕ
  pub amount : ℕ

pub data ClaimOutcome : Type 0 where
  pending : Claimable → ClaimOutcome
  claimed : Claimable → (hash : Text) → ClaimOutcome
  skipped : Claimable → (reason : Option Text) → ClaimOutcome
  cancelled : Claimable → ClaimOutcome
  failed : Claimable → (reason : Option Text) → (reverted : Bool) → ClaimOutcome

-- `toLowerCase` on an address, which is ASCII.
abbrev pub lower : ℕ → ℕ
lower c = if leb b'A' c && leb c b'Z' then c + 32 else c

unfoldable pub claim_key : Claimable → Text
claim_key claim = map lower claim.market ++ b':' ∷ to_string claim.round_id

-- `sort` is stable: the later of two equal amounts goes behind the earlier. `insert` puts a claim
-- that stood before the sorted rest in its place.
insert : Claimable → List Claimable → List Claimable
insert claim [] = claim ∷ []
insert claim (c ∷ cs) =
    let rest = insert claim cs in if ltb claim.amount c.amount then c ∷ rest else claim ∷ c ∷ cs

unfoldable pub order_claims : List Claimable → List Claimable
unfolding insert
order_claims [] = []
order_claims (claim ∷ claims) = insert claim (order_claims claims)

total_from : ℕ → List Claimable → ℕ
total_from sum [] = sum
total_from sum (claim ∷ claims) = total_from (sum + claim.amount) claims

unfoldable pub total_claimable : List Claimable → ℕ
unfolding total_from
total_claimable claims = total_from 0 claims

abbrev confirmed_amount : ClaimOutcome → ℕ
confirmed_amount (claimed claim hash) = claim.amount
confirmed_amount _ = 0

collected_from : ℕ → List ClaimOutcome → ℕ
collected_from sum [] = sum
collected_from sum (outcome ∷ outcomes) = collected_from (sum + confirmed_amount outcome) outcomes

unfoldable pub collected : List ClaimOutcome → ℕ
unfolding collected_from
collected outcomes = collected_from 0 outcomes

pub record RunSummary : Type 0 where
  pub claimed : ℕ
  pub skipped : ℕ
  pub failed : ℕ
  pub cancelled : ℕ
  pub remaining : ℕ

-- The `state` of an outcome, as its place in the list of states.
abbrev pub state_of : ClaimOutcome → ℕ
state_of (ClaimOutcome.pending c) = 0
state_of (ClaimOutcome.claimed c h) = 1
state_of (ClaimOutcome.skipped c r) = 2
state_of (ClaimOutcome.cancelled c) = 3
state_of (ClaimOutcome.failed c r v) = 4

unfoldable pub count_state : ℕ → List ClaimOutcome → ℕ
count_state state outcomes = length (filter (λ o. state_of o == state) outcomes)

unfoldable pub summarise : List ClaimOutcome → RunSummary
unfolding count_state
summarise outcomes = record {
  claimed = count_state 1 outcomes;
  skipped = count_state 2 outcomes;
  failed = count_state 4 outcomes;
  cancelled = count_state 3 outcomes;
  remaining = count_state 0 outcomes;
}

-- What the chain and the wallet answer when a claim's turn comes: the simulation refuses; it is
-- sent and mined, reverted or not; or sending or waiting throws, and `rejected` is whether the
-- error is a refusal by the user.
pub data Reply : Type 0 where
  refused : (reason : Option Text) → Reply
  mined : (hash : Text) → (reverted : Bool) → Reply
  threw : (rejected : Bool) → (reason : Option Text) → Reply

abbrev outcome_of : Claimable → Reply → ClaimOutcome
outcome_of claim (refused reason) = skipped claim reason
outcome_of claim (mined hash reverted) =
    if reverted then failed claim none true else claimed claim hash
outcome_of claim (threw rejected reason) =
    if rejected then cancelled claim else failed claim reason false

-- Whether the loop breaks.
abbrev stops : Reply → Bool
stops (threw rejected reason) = rejected
stops _ = false

-- `settle`: the outcome at one index is replaced.
unfoldable pub settle : ℕ → ClaimOutcome → List ClaimOutcome → List ClaimOutcome
settle index outcome [] = []
settle zero outcome (old ∷ current) = outcome ∷ current
settle (suc index) outcome (old ∷ current) = old ∷ settle index outcome current

-- The loop of `run` over the queue, from an index on; `reply` is the answer that comes at an index.
unfoldable pub loop :
    (ℕ → Claimable → Reply) → ℕ → List Claimable → List ClaimOutcome → List ClaimOutcome
unfolding settle
loop reply index [] outcomes = outcomes
loop reply index (claim ∷ queue) outcomes =
    let answer = reply index claim in
    let next = settle index (outcome_of claim answer) outcomes in
    let rest = loop reply (suc index) queue next in if stops answer then next else rest

-- The hook's state.
pub record ClaimAll : Type 0 where
  pub outcomes : List ClaimOutcome
  pub running : Bool

run_queue : (ℕ → Claimable → Reply) → List Claimable → List ClaimOutcome
unfolding loop
run_queue reply queue = loop reply 0 queue (map pending queue)

-- `run`, from its call to its end; without a wallet or a claim, or while a run is on, it returns.
unfoldable pub run : Bool → (ℕ → Claimable → Reply) → List Claimable → ClaimAll → ClaimAll
unfolding order_claims run_queue
run connected reply claims s =
    if not connected || (length claims == 0 || s.running)
    then s
    else record { outcomes = run_queue reply (order_claims claims); running = false }

unfoldable pub reset : ClaimAll → ClaimAll
reset s = record s { outcomes = [] }
