-- ===== src/Forms/LendChain.antt =====
-- The lending forms against the pool: what they offer goes through.
use ghoststake.Prelude.{
  ℕ, ◌≤◌, ◌<◌, ◌≡◌, refl, Bool, true, false, ◌&&◌, if◌then◌else◌, Option, none, some, [], ◌∷◌, ltb,
  is_some, arith, Returns, Bool-cases, inl, inr,
}
use ghoststake.Text.{Text}
use ghoststake.Nav.{same, same_refl}
use ghoststake.Lend.{withdraw_problem}
use ghoststake.Pool.{Curve, Caller, Pool, supply, withdraw, balance_of_supply}
use ghoststake.Pool.Books.{IsBooked}
use ghoststake.Pool.Growth.{withdraw_accepts, supply_accepts}
use ghoststake.Forms.{Send, send_all, send_all-confirmed}
use ghoststake.Forms.Lend.{
  Mode, supplying, withdrawing, LendReads, is_disabled, is_panel_disabled, submit,
}

-- The pool's asset, which is a token of another project: for one account, what it holds and what it
-- lets the pool take, in the words of ERC-20.
pub record Asset : Type 1 where
  pub Tokens : Type 0
  pub balance : Tokens → ℕ
  pub allowance : Tokens → ℕ
  pub approve : ℕ → Tokens → Tokens
  -- The pool's `transferFrom`, and its `transfer` out of what it holds; `none` is a revert.
  pub transfer_from : ℕ → Tokens → Option Tokens
  pub transfer_to : (held n : ℕ) → Tokens → Option Tokens
  pub allowance-approve : (n : ℕ) (s : Tokens) → allowance (approve n s) ≡ n
  pub balance-approve : (n : ℕ) (s : Tokens) → balance (approve n s) ≡ balance s
  pub transfers :
      (n : ℕ) (s : Tokens) → n ≤ balance s → n ≤ allowance s → Returns (transfer_from n s)
  pub sends : (held n : ℕ) (s : Tokens) → n ≤ held → Returns (transfer_to held n s)

module _ (a : Asset) where
  open a use {
    Tokens, balance, allowance, approve, transfer_from, transfer_to, allowance-approve,
    balance-approve, transfers, sends,
  }

  -- The pool, and the account's tokens.
  pub record World : Type 0 where
    pub pool : Pool
    pub tokens : Tokens

  -- A call that reverts leaves the world as it was, and is not confirmed.
  abbrev settled : World → Option Pool → Option Tokens → World × Bool
  settled w none tokens = (w, false)
  settled w (some p) none = (w, false)
  settled w (some p) (some t) = (record { pool = p; tokens = t }, true)

  -- What an approval does to the account's tokens of the asset, and to what the pool may take of them:
  -- nothing where it is of another token or for another spender.
  abbrev pub approved : (asset pool token spender : Text) → ℕ → Tokens → Tokens
  approved asset pool token spender amount tokens =
      if same token asset && same spender pool then approve amount tokens else tokens

  -- A transaction that the wallet sends and the chain takes up, where the asset and the pool are at the
  -- addresses given.
  abbrev pub land : (asset pool : Text) → Curve → Caller → World → Send → World × Bool
  land asset pool c m w (Send.approve token spender amount) =
      (record { pool = w.pool; tokens = approved asset pool token spender amount w.tokens }, true)
  land asset pool c m w (Send.supply amount) =
      settled w (supply c m amount (is_some (transfer_from amount w.tokens)) w.pool)
        (transfer_from amount w.tokens)
  land asset pool c m w (Send.withdraw_supply amount) =
      settled w (withdraw c m amount w.pool) (transfer_to w.pool.cash amount w.tokens)
  land asset pool c m w _ = (w, false)

  -- The form's reads are what the chain says.
  pub record IsCurrent (r : LendReads) (m : Caller) (w : World) : Type 0 where
    pub wallet_read : r.wallet ≡ some (balance w.tokens)
    pub allowance_read : r.allowance ≡ some (allowance w.tokens)
    pub balance_read : r.balance ≡ some (balance_of_supply w.pool m.sender)
    pub available_read : r.available ≡ some w.pool.cash

  pub record IsReady (m : Caller) (w : World) : Type 0 where
    pub booked : IsBooked w.pool
    pub later : w.pool.last_accrual_time ≤ m.now
    pub entries : m.entries_open ≡ true

  supply-lands :
      (asset pool : Text) (c : Curve) (m : Caller) (w : World) (amount : ℕ)
      → IsReady m w
      → 0 < amount
      → amount ≤ balance w.tokens
      → amount ≤ allowance w.tokens
      → (land asset pool c m w (Send.supply amount)).1 ≡ true
  supply-lands asset pool c m w amount v some_amount within allowed =
      let (t, e) = transfers amount w.tokens within allowed in
      let (p, f) = supply_accepts c m amount w.pool v.later some_amount v.entries in rw (e, f) refl

  withdraw-lands :
      (asset pool : Text) (c : Curve) (m : Caller) (w : World) (amount : ℕ)
      → IsReady m w
      → 0 < amount
      → amount ≤ balance_of_supply w.pool m.sender
      → amount ≤ w.pool.cash
      → (land asset pool c m w (Send.withdraw_supply amount)).1 ≡ true
  withdraw-lands asset pool c m w amount v some_amount within enough =
      let (p, f) = withdraw_accepts c m amount w.pool v.booked v.later some_amount within enough in
      let (t, e) = sends w.pool.cash amount w.tokens enough in rw (f, e) refl

  module _ (c : Curve) (m : Caller) where
    send_one :
        (asset pool : Text) (w : World) (s : Send)
        → (land asset pool c m w s).1 ≡ true
        → (send_all (land asset pool c m) (s ∷ []) w).1 ≡ true
    unfolding send_all
    send_one asset pool w s e = rw (send_all-confirmed (land asset pool c m) s [] w e) refl

    -- Approved, an amount that the account has goes through.
    approve_supply-lands :
        (w : World) (asset pool : Text) (amount : ℕ)
        → IsReady m w
        → 0 < amount
        → amount ≤ balance w.tokens
        → (send_all
            (land asset pool c m)
            (Send.approve asset pool amount ∷ Send.supply amount ∷ [])
            w).1
          ≡ true
    approve_supply-lands w asset pool amount v some_amount within =
        let w' : World = record {
          pool = w.pool;
          tokens = approved asset pool asset pool amount w.tokens;
        } in
        let granted : w'.tokens ≡ approve amount w.tokens =
          rw (same_refl asset, same_refl pool) refl in
        let kept : balance w'.tokens ≡ balance (approve amount w.tokens) =
          λ i. balance (granted i) in
        let allows : allowance w'.tokens ≡ allowance (approve amount w.tokens) =
          λ i. allowance (granted i) in
        rw
          (send_all-confirmed (land asset pool c m) (Send.approve asset pool amount)
            (Send.supply amount ∷ []) w refl)
          (send_one asset pool w' (Send.supply amount) (
            supply-lands asset pool c m w' amount
              (record { booked = v.booked; later = v.later; entries = v.entries }) some_amount
              (omega (arith, kept, balance-approve amount w.tokens))
              (omega (arith, allows, allowance-approve amount w.tokens))))

    submit_supply-lands :
        (w : World) (asset pool : Text) (amount : ℕ)
        → IsReady m w
        → 0 < amount
        → amount ≤ balance w.tokens
        → (send_all
            (land asset pool c m)
            (submit asset pool supplying (some (allowance w.tokens)) (some amount))
            w).1
          ≡ true
    unfolding submit
    submit_supply-lands w asset pool amount v some_amount within =
        elim (Bool-cases (ltb (allowance w.tokens) amount)) [
          | inl short ↦ rw short (approve_supply-lands w asset pool amount v some_amount within)
          | inr enough ↦ rw enough (
              send_one asset pool w (Send.supply amount)
                (supply-lands asset pool c m w amount v some_amount within (ground arith)))
        ]

    submit_withdraw-lands :
        (w : World) (asset pool : Text) (amount : ℕ) (allowed : Option ℕ)
        → IsReady m w
        → 0 < amount
        → amount ≤ balance_of_supply w.pool m.sender
        → amount ≤ w.pool.cash
        → (send_all (land asset pool c m) (submit asset pool withdrawing allowed (some amount)) w).1
          ≡ true
    unfolding submit
    submit_withdraw-lands w asset pool amount allowed v some_amount within enough =
        send_one asset pool w (Send.withdraw_supply amount)
          (withdraw-lands asset pool c m w amount v some_amount within enough)

    -- What an amount that the form offers is within.
    abbrev IsWithin : Mode → World → ℕ → Type 0
    IsWithin supplying w amount = amount ≤ balance w.tokens
    IsWithin withdrawing w amount =
        (amount ≤ balance_of_supply w.pool m.sender) × (amount ≤ w.pool.cash)

    submit-lands :
        (w : World) (asset pool : Text) (mode : Mode) (r : LendReads) (amount : ℕ)
        → IsReady m w
        → IsCurrent r m w
        → 0 < amount
        → IsWithin mode w amount
        → (send_all (land asset pool c m) (submit asset pool mode r.allowance (some amount)) w).1
          ≡ true
    submit-lands w asset pool supplying r amount v k some_amount within =
        rw k.allowance_read (submit_supply-lands w asset pool amount v some_amount within)
    submit-lands w asset pool withdrawing r amount v k some_amount within =
        submit_withdraw-lands w asset pool amount r.allowance v some_amount within.0 within.1

    enabled-IsWithin :
        (w : World) (mode : Mode) (r : LendReads) (amount : ℕ)
        → IsCurrent r m w
        → is_disabled false mode r (some amount) ≡ false
        → (0 < amount) × IsWithin mode w amount
    unfolding is_disabled withdraw_problem
    enabled-IsWithin w supplying r amount k e = ground arith
    enabled-IsWithin w withdrawing r amount k e = ground arith

    -- The panel of the stocks page lets the same amounts through.
    panel-IsWithin :
        (w : World) (mode : Mode) (r : LendReads) (amount : ℕ)
        → IsCurrent r m w
        → is_panel_disabled false mode r (some amount) ≡ false
        → (0 < amount) × IsWithin mode w amount
    unfolding is_panel_disabled
    panel-IsWithin w supplying r amount k e = ground arith
    panel-IsWithin w withdrawing r amount k e = ground arith

    -- Where the pool's books are in order and entries are open, and the form's reads are what the
    -- chain says, every transaction that the enabled form sends is confirmed: for supplying and
    -- for withdrawing, whatever the allowance was, at that time or any later one.
    pub enabled-lands :
        (w : World) (asset pool : Text) (mode : Mode) (r : LendReads) (amount : ℕ)
        → IsReady m w
        → IsCurrent r m w
        → is_disabled false mode r (some amount) ≡ false
        → (send_all (land asset pool c m) (submit asset pool mode r.allowance (some amount)) w).1
          ≡ true
    enabled-lands w asset pool mode r amount v k e =
        let (some_amount, within) = enabled-IsWithin w mode r amount k e in
        submit-lands w asset pool mode r amount v k some_amount within

    panel_enabled-lands :
        (w : World) (asset pool : Text) (mode : Mode) (r : LendReads) (amount : ℕ)
        → IsReady m w
        → IsCurrent r m w
        → is_panel_disabled false mode r (some amount) ≡ false
        → (send_all (land asset pool c m) (submit asset pool mode r.allowance (some amount)) w).1
          ≡ true
    panel_enabled-lands w asset pool mode r amount v k e =
        let (some_amount, within) = panel-IsWithin w mode r amount k e in
        submit-lands w asset pool mode r amount v k some_amount within
