-- ===== src/StockVault/Liquidation/WriteOff.antt =====
-- What a write-off leaves of an account.
use ghoststake.Prelude.{
  ℕ, ◌<◌, ◌≡◌, Bool, true, false, not, Option, none, some, List, [], ◌∷◌, ltb, leb, ◌==◌, any,
  arith, OnSome, OnSome-guard, OnSome-eq, guard-eq, guard-false, ◌∙◌, inl, inr, or_elim,
}
use ghoststake.Pool.Entries.{value_at, value_at-assign}
use ghoststake.Pool.{
  Pool, Curve, Caller, accrue, with_accrued, balance_of_debt, absorb_bad_debt, absorb_on, socialise,
}
use ghoststake.StockVault.{
  Vault, Setup, Feeds, Visit, Collateral, Totals, totals, set_collateral, as_module, is_known,
}
use ghoststake.StockVault.Covered.{with_pool-inv, with_totals-inv, on_pool-inv}
use ghoststake.StockVault.Liquidation.{hand_over, then_absorb, write_off_on, write_off_bad_debt}

abbrev IsCleared : ℕ → Pool → Type 0
IsCleared user p = value_at user p.scaled_debt ≡ 0

socialise-debt : (remainder : ℕ) (p : Pool) → (socialise remainder p).scaled_debt ≡ p.scaled_debt
unfolding socialise
socialise-debt remainder p = ground arith

absorb_on-IsCleared : (user : ℕ) (p : Pool) → OnSome (IsCleared user) (absorb_on user p)
unfolding absorb_on
absorb_on-IsCleared user p = OnSome-guard (IsCleared user) (balance_of_debt p user == 0) _ (λ _.
    OnSome-guard (IsCleared user) (ltb p.total_borrow_scaled (value_at user p.scaled_debt)) _
      (λ _. rw socialise-debt (ground (arith, value_at-assign user 0 user p.scaled_debt))))

absorb-clears :
    (c : Curve) (m : Caller) (user : ℕ) (p q : Pool)
    → absorb_bad_debt c m user p ≡ some q
    → IsCleared user q
unfolding absorb_bad_debt
absorb-clears c m user p q h = absorbed (accrue c m.now p) (guard-eq (not m.is_module) _ h)
  where
    absorbed : (o : Option Pool) → with_accrued o (absorb_on user) ≡ some q → IsCleared user q
    absorbed none k = cc
    absorbed (some p') k =
        OnSome-eq (IsCleared user) (absorb_on user p') q (absorb_on-IsCleared user p') k

then_absorb-clears :
    (s : Setup) (m : Visit) (user : ℕ) (o : Option Pool) (q : Pool)
    → then_absorb s m user o ≡ some q
    → IsCleared user q
then_absorb-clears s m user none q h = cc
then_absorb-clears s m user (some p) q h = absorb-clears s.curve (as_module m) user p q h

kept_empty :
    (cs : List Collateral) (user token : ℕ) (v : Vault)
    → v.collateral_of user token ≡ 0
    → (hand_over cs user v).collateral_of user token ≡ 0
unfolding hand_over
kept_empty [] user token v e = e
kept_empty (c ∷ cs) user token v e =
    kept_empty cs user token (set_collateral v user c.token 0) (ground arith)

hand_over-empty :
    (cs : List Collateral) (user token : ℕ) (v : Vault)
    → any (λ (c : Collateral). c.token == token) cs ≡ true
    → (hand_over cs user v).collateral_of user token ≡ 0
unfolding hand_over
hand_over-empty [] user token v h = cc
hand_over-empty (c ∷ cs) user token v h = elim (or_elim (c.token == token) _ h) [
  | inl here ↦ kept_empty cs user token (set_collateral v user c.token 0) (ground arith)
  | inr there ↦ hand_over-empty cs user token (set_collateral v user c.token 0) there
]

-- A write-off that goes through is of an account that owes more than all of its collateral is
-- worth at the prices of a liquidation, and leaves it no debt and nothing of any
-- collateral that the vault takes.
pub write_off-clears :
    (f : Feeds) (s : Setup) (m : Visit) (user token : ℕ) (moves : Bool) (v w : Vault)
    → is_known s token ≡ true
    → write_off_bad_debt f s m user moves v ≡ some w
    → (p : Pool) × (t : Totals) × (accrue s.curve m.now v.pool ≡ some p)
      × (totals f s m.now true (v.collateral_of user) ≡ some t)
      × (t.value < balance_of_debt p user)
      × (value_at user w.pool.scaled_debt ≡ 0)
      × (w.collateral_of user token ≡ 0)
unfolding write_off_bad_debt write_off_on
write_off-clears f s m user token moves v w known h =
    let (p, is_p, h1) = with_pool-inv (accrue s.curve m.now v.pool) _ w h in
    let (t, is_t, h2) = with_totals-inv (totals f s m.now true (v.collateral_of user)) _ w h1 in
    let debt = balance_of_debt p user in
    let h3 = guard-eq (debt == 0) _ h2 in
    let less : leb debt t.value ≡ false = guard-false (leb debt t.value) _ h3 in
    let left = hand_over s.collaterals user v in
    let (q, e, same, kept) =
      on_pool-inv left _ w (guard-eq (not moves) _ (guard-eq (leb debt t.value) _ h3)) in
    let clear = then_absorb-clears s m user _ q e in
    (
      p,
      t,
      is_p,
      is_t,
      ground arith,
      (rw same clear),
      (λ i. kept i user token) ∙ hand_over-empty s.collaterals user token v known,
    )
