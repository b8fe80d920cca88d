-- ===== src/StockVault/Covered.antt =====
-- A loan leaves its debt within the limit.
use ghoststake.Prelude.{
  ℕ, ◌+◌, ◌/◌, ◌≤◌, ◌<◌, ◌≡◌, refl, Bool, false, not, Option, none, some, ltb, ◌==◌, arith,
  guard-eq, guard-false, OnSome-eq, Bool-cases, inl, inr, ◌⊎◌, ◌-◌,
}
use ghoststake.Pool.{Pool, Curve, Caller, accrue, balance_of_debt, ray, borrow as pool_borrow}
use ghoststake.Pool.Books.{IsBooked, accrue-IsBooked}
use ghoststake.Pool.Trips.{accrue-IsAt, accrue_again, borrow-inv}
use ghoststake.Pool.Rounding.{BorrowsWithin, borrow_on-within}
use ghoststake.StockVault.{
  Vault, Setup, Feeds, Visit, Totals, totals, borrow, borrow_within, withdraw, still_covered,
  set_collateral, is_known, with_pool, with_totals, on_pool, as_module, fee_on,
}

pub with_pool-inv :
    (o : Option Pool) (f : Pool → Option Vault) (w : Vault)
    → with_pool o f ≡ some w
    → (p : Pool) × (o ≡ some p) × (f p ≡ some w)
with_pool-inv none f w h = cc
with_pool-inv (some p) f w h = (p, refl, h)

pub with_totals-inv :
    (o : Option Totals) (f : Totals → Option Vault) (w : Vault)
    → with_totals o f ≡ some w
    → (t : Totals) × (o ≡ some t) × (f t ≡ some w)
with_totals-inv none f w h = cc
with_totals-inv (some t) f w h = (t, refl, h)

pub on_pool-inv :
    (v : Vault) (o : Option Pool) (w : Vault)
    → on_pool v o ≡ some w
    → (q : Pool) × (o ≡ some q) × (w.pool ≡ q) × (w.collateral_of ≡ v.collateral_of)
on_pool-inv v none w h = cc
on_pool-inv v (some q) w h = (q, refl, ground arith, ground arith)

-- The debt after a loan, up to what the pool rounds.
abbrev pub IsCovered : Feeds → Setup → Visit → Vault → Vault → Type 0
IsCovered f s m v w =
    (p : Pool) × (t : Totals) × (accrue s.curve m.now v.pool ≡ some p)
    × (totals f s m.now false (w.collateral_of m.sender) ≡ some t)
    × (balance_of_debt w.pool m.sender ≤ t.borrow_limit + p.borrow_index / ray + 1)

lent-le :
    (c : Curve) (m : Caller) (amount user limit : ℕ) (p q : Pool)
    → p.last_accrual_time ≡ m.now
    → 0 < p.borrow_index
    → balance_of_debt p user + amount ≤ limit
    → pool_borrow c m amount user p ≡ some q
    → balance_of_debt q user ≤ limit + p.borrow_index / ray + 1
lent-le c m amount user limit p q now some_index within h =
    let out = borrow-inv c m amount p p q (accrue_again c m.now p now) user h in
    let b =
      OnSome-eq (BorrowsWithin p user amount) _ q (borrow_on-within user amount p some_index) out in
    omega (arith, b.1)

module _ (f : Feeds) (s : Setup) (m : Visit) (v w : Vault) where
  lent_within :
      (amount : ℕ) (p : Pool) (t : Totals)
      → p.last_accrual_time ≡ m.now
      → 0 < p.borrow_index
      → borrow_within s m amount v p t ≡ some w
      → (balance_of_debt w.pool m.sender ≤ t.borrow_limit + p.borrow_index / ray + 1)
        × (w.collateral_of ≡ v.collateral_of)
  unfolding borrow_within
  lent_within amount p t now some_index h =
      let over = ltb t.borrow_limit (balance_of_debt p m.sender + amount + fee_on s amount) in
      let fits : over ≡ false = guard-false over _ h in
      let (q, e, same, kept) = on_pool-inv v _ w (guard-eq over _ h) in
      let le =
        lent-le s.curve (as_module m) (amount + fee_on s amount) m.sender t.borrow_limit p q now
          some_index (ground arith) e in
      ((rw same le), kept)

  -- After a loan from a pool whose books are in order, the borrower's debt is at most the limit that
  -- its collateral gives, and the little that the pool rounds up.
  pub borrow-IsCovered :
      (amount : ℕ) → IsBooked v.pool → borrow f s m amount v ≡ some w → IsCovered f s m v w
  unfolding borrow
  borrow-IsCovered amount b h =
      let (p, e, h') =
        with_pool-inv (accrue s.curve m.now v.pool) _ w
          (guard-eq (amount == 0) _ (guard-eq (not m.entries_open) _ h)) in
      let (t, k, h'') =
        with_totals-inv (totals f s m.now false (v.collateral_of m.sender)) _ w h' in
      let booked = accrue-IsBooked s.curve m.now v.pool p b e in
      let (le, kept) =
        lent_within amount p t (accrue-IsAt s.curve m.now v.pool p e)
          (omega (arith, booked.borrow_from)) h'' in
      (p, t, e, (rw kept k), le)

  -- A withdrawal leaves no debt, or one within the limit that the rest of the collateral gives.
  abbrev pub IsLeftCovered : Type 0
  IsLeftCovered =
      (balance_of_debt w.pool m.sender ≡ 0)
      ⊎ ((t : Totals) × (totals f s m.now false (w.collateral_of m.sender) ≡ some t)
          × (balance_of_debt w.pool m.sender ≤ t.borrow_limit))

  still_covered-inv : (u : Vault) (p : Pool) → still_covered f s m u p ≡ some w → IsLeftCovered
  unfolding still_covered
  still_covered-inv u p h = elim (Bool-cases (balance_of_debt p m.sender == 0)) [
    | inl free ↦ inl (ground arith)
    | inr owes ↦
        let (t, k, h') =
          with_totals-inv (totals f s m.now false (u.collateral_of m.sender)) _ w (rw owes at h) in
        let over = ltb t.borrow_limit (balance_of_debt p m.sender) in
        let fits : over ≡ false = guard-false over _ h' in
        let kept : w ≡ record u { pool = p } = ground (arith, guard-eq over _ h') in
        rw kept (inr (t, k, ground arith))
  ]

  -- A withdrawal leaves no debt, or one within the limit that the rest of the collateral gives.
  pub withdraw-IsCovered :
      (token amount : ℕ) (moves : Bool)
      → withdraw f s m token amount moves v ≡ some w
      → IsLeftCovered
  unfolding withdraw
  withdraw-IsCovered token amount moves h =
      let held = v.collateral_of m.sender token in
      let (p, e, h') = with_pool-inv (accrue s.curve m.now v.pool) _ w (
        guard-eq (not moves) _ (
          guard-eq (ltb held amount) _
            (guard-eq (not (is_known s token)) _ (guard-eq (amount == 0) _ h)))) in
      still_covered-inv (set_collateral v m.sender token (held - amount)) p h'
