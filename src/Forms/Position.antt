-- ===== src/Forms/Position.antt =====
-- Taking a side of a round: `PositionForm`, `previewHealth`, the split of the rounds and the claim row
-- of ghoststake-frontend/src/components/MarketBlock.tsx.
pub mod Covers
use ghoststake.Prelude.{
  ℕ, ◌+◌, ◌*◌, ◌/◌, ◌≤◌, ◌≡◌, refl, Bool, true, false, ◌||◌, ◌&&◌, not, Option, none, some, List,
  [], ◌∷◌, ◌++◌, filter, ltb, ◌==◌, or_else, if◌then◌else◌, arith,
}
use ghoststake.Text.{Text}
use ghoststake.Rounds.{Phase, Side}
use ghoststake.Stake.{borrow_headroom}
use ghoststake.MarketList.{MarketRound}
use ghoststake.Forms.{
  Send, approve, approve_borrow_delegate, open_position, claim_round, is_over, read_field,
}

pub record PositionReads : Type 0 where
  pub wallet : Option ℕ
  pub router_allowance : Option ℕ
  pub delegation : Option ℕ
  pub max_borrowable : Option ℕ
  pub lien : Option ℕ
  pub collateral_value : Option ℕ
  pub liquidation_threshold : Option ℕ

-- `own === "" ? 0n : parseAmount(own, decimals)`
unfoldable pub field_amount : Text → ℕ → Option ℕ
field_amount [] decimals = some 0
field_amount (c ∷ t) decimals = read_field (c ∷ t) decimals

-- `capacity`
unfoldable pub capacity : PositionReads → Option ℕ
capacity r = elim r.max_borrowable [
  | none ↦ none
  | some max ↦ some (borrow_headroom max (or_else r.lien 0))
]

abbrev unreadable : Option ℕ → Bool
unreadable none = true
unreadable (some n) = false

unfoldable pub is_disabled : Bool → PositionReads → (own borrowed : Option ℕ) → Bool
unfolding capacity
is_disabled busy r own borrowed =
    busy
    || ((unreadable own || unreadable borrowed)
        || (or_else own 0 + or_else borrowed 0 == 0
            || (is_over r.wallet (or_else own 0) || is_over (capacity r) (or_else borrowed 0))))

-- `needsTokenApproval` and `needsDelegation`
abbrev pub needs_more : Option ℕ → ℕ → Bool
needs_more allowed amount = ltb 0 amount && ltb (or_else allowed 0) amount

abbrev when : Bool → Send → List Send
when true s = s ∷ []
when false s = []

-- What `submit` sends.
unfoldable pub submit : Text → Text → ℕ → Side → PositionReads → (own borrowed : ℕ) → List Send
submit asset router round side r own borrowed =
    when (needs_more r.router_allowance own) (approve asset router own)
    ++ (when (needs_more r.delegation borrowed) (approve_borrow_delegate router borrowed)
        ++ open_position router round side borrowed own ∷ [])

-- The health factor after the loan; `none` where it has no debt to divide by.
abbrev preview_at : Option ℕ → Option ℕ → Option ℕ → ℕ → Option ℕ
preview_at (some collateral) (some lien) (some threshold) borrowed =
    if lien + borrowed == 0 then none else some ((collateral * threshold) / (lien + borrowed))
preview_at _ _ _ borrowed = none

unfoldable pub preview_health : PositionReads → ℕ → Option ℕ
preview_health r borrowed = preview_at r.collateral_value r.lien r.liquidation_threshold borrowed

abbrev is_done : Option Phase → Bool
is_done (some Phase.resolved) = true
is_done (some Phase.void) = true
is_done _ = false

-- `done` and `live`
unfoldable pub done_rounds : List MarketRound → List MarketRound
done_rounds = filter (λ r. is_done r.phase)

unfoldable pub live_rounds : List MarketRound → List MarketRound
live_rounds = filter (λ r. not (is_done r.phase))

-- What the row of a settled round says: nothing where the account was not in it.
pub data ClaimRow : Type 0 where
  collected lost standing : ClaimRow
  to_claim : (amount : ℕ) → ClaimRow

abbrev uncollected : Option ℕ → ClaimRow
uncollected none = standing
uncollected (some claimable) = if claimable == 0 then lost else to_claim claimable

unfoldable pub claim_row :
    (claimable : Option ℕ) (claimed : Option Bool) (position_size : ℕ) → Option ClaimRow
claim_row claimable claimed position_size =
    if position_size == 0
    then none
    else if or_else claimed false
    then some collected
    else some (uncollected claimable)

-- What the router may take of the wallet, and may borrow.
pub record Allowed : Type 0 where
  pub tokens : ℕ
  pub loan : ℕ

abbrev pub grant : Allowed → Send → Allowed
grant a (Send.approve token spender amount) = record a { tokens = amount }
grant a (Send.approve_borrow_delegate router amount) = record a { loan = amount }
grant a _ = a

-- Every position that the sends open is within what was granted before it.
abbrev pub Covered : Allowed → List Send → Type 0
Covered a [] = Unit
Covered a (Send.open_position router round side borrowed own ∷ sends) =
    (own ≤ a.tokens) × (borrowed ≤ a.loan) × Covered a sends
Covered a (s ∷ sends) = Covered (grant a s) sends

-- No grant is more than the position takes, of another token than the asset, or for anybody but the
-- router, and positions are opened through the router.
abbrev pub GrantsAtMost : (asset router : Text) → ℕ → ℕ → List Send → Type 0
GrantsAtMost asset router own borrowed [] = Unit
GrantsAtMost asset router own borrowed (Send.approve token spender amount ∷ sends) =
    (token ≡ asset)
    × (spender ≡ router)
    × (amount ≤ own)
    × GrantsAtMost asset router own borrowed sends
GrantsAtMost asset router own borrowed (Send.approve_borrow_delegate spender amount ∷ sends) =
    (spender ≡ router) × (amount ≤ borrowed) × GrantsAtMost asset router own borrowed sends
GrantsAtMost asset router own borrowed (Send.open_position through round side loan stake ∷ sends) =
    (through ≡ router) × GrantsAtMost asset router own borrowed sends
GrantsAtMost asset router own borrowed (s ∷ sends) = GrantsAtMost asset router own borrowed sends
