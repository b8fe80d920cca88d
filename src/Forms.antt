-- ===== src/Forms.antt =====
-- The forms that send transactions: what each reads of the chain, when its button is enabled, and
-- which transactions it sends. `parsed` is `parseAmount` of the field, whose text has no sign, so a
-- number that is read is not negative. A figure that has not loaded is `none`.
pub mod Lend
pub mod LendChain
pub mod Collateral
pub mod Loan
pub mod LoanChain
pub mod Vault
pub mod Position
use ghoststake.Prelude.{
  ℕ, Bool, true, false, ◌||◌, ◌&&◌, Option, none, some, List, [], ◌∷◌, ltb, ◌==◌, is_some, ◌≡◌,
  refl,
}
use ghoststake.Prelude.Int.{ℤ, pos}
use ghoststake.Text.{Text}
use ghoststake.Amount.{parse_amount}
use ghoststake.Rounds.{Side}
use ghoststake.Transaction.{TxState}

-- What a form asks the wallet to send.
pub data Send : Type 0 where
  approve : (token spender : Text) → (amount : ℕ) → Send
  approve_borrow_delegate : (router : Text) → (amount : ℕ) → Send
  -- to the lending pool
  supply withdraw_supply : (amount : ℕ) → Send
  -- to the deposit vault
  deposit withdraw borrow repay : (amount : ℕ) → Send
  -- to the stock-loan vault
  deposit_stock withdraw_stock : (token : Text) → (amount : ℕ) → Send
  borrow_stock repay_stock : (amount : ℕ) → Send
  -- to a market's router, and to a market
  open_position : (router : Text) → (round : ℕ) → Side → (borrowed own : ℕ) → Send
  claim_round : (market : Text) → (round : ℕ) → Send

-- `const ok = await tx.send(...); if (!ok) return;` for each transaction in turn: where the world is
-- afterwards, and whether the last one was confirmed.
abbrev after_send {ℓ} : {W : Type ℓ} → Bool → W → W × Bool → W × Bool
after_send true w rest = rest
after_send false w rest = (w, false)

unfoldable pub send_all {ℓ} : {W : Type ℓ} → (W → Send → W × Bool) → List Send → W → W × Bool
send_all send [] w = (w, true)
send_all send (s ∷ sends) w =
    let after = send w s in
    let rest = send_all send sends after.0 in after_send after.1 after.0 rest

pub send_all-confirmed {ℓ} :
    {W : Type ℓ} (send : W → Send → W × Bool) (s : Send) (sends : List Send) (w : W)
    → (send w s).1 ≡ true
    → send_all send (s ∷ sends) w ≡ send_all send sends (send w s).0
unfolding send_all
send_all-confirmed send s sends w e = rw e refl

-- `tx.state.status === "signing" || tx.state.status === "pending"`
abbrev pub is_busy : TxState → Bool
is_busy TxState.signing = true
is_busy (TxState.pending hash) = true
is_busy _ = false

-- The number in the field.
abbrev pub unsigned : Option ℤ → Option ℕ
unsigned (some (pos n)) = some n
unsigned _ = none

unfoldable pub read_field : Text → ℕ → Option ℕ
read_field input decimals = unsigned (parse_amount input decimals)

-- `max !== undefined && parsed > max`
abbrev pub is_over : Option ℕ → ℕ → Bool
is_over none amount = false
is_over (some max) amount = ltb max amount

-- The sends of a form that approves first where it must.
abbrev pub approve_first : Bool → Text → Text → ℕ → List Send → List Send
approve_first true token spender amount sends = approve token spender amount ∷ sends
approve_first false token spender amount sends = sends
