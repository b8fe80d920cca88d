-- ===== src/Transaction.antt =====
-- One form's writes, from the wallet prompt to a mined receipt
-- (ghoststake-frontend/src/hooks/useTransaction.ts). A send that the form has stopped waiting for
-- is still running, so the state holds every send in flight, by the number that `live` had for it.
pub mod Safety
pub mod Toasts
use ghoststake.Prelude.{
  ℕ, suc, Bool, true, false, Option, none, some, List, [], ◌∷◌, ◌==◌, if◌then◌else◌,
}
use ghoststake.Text.{Text}

pub data FailureCode : Type 0 where
  reverted no_connection not_sent : FailureCode

-- Why a send failed: the app's own case, or the first line of the wallet's error.
pub data Failure : Type 0 where
  coded : FailureCode → Failure
  detailed : Text → Failure

pub data TxState : Type 0 where
  idle signing cancelled : TxState
  pending : (hash : Text) → TxState
  confirmed : (hash : Text) → TxState
  failed : Failure → (hash : Option Text) → TxState

-- What a toast shows; `none` in its place is a toast that was never shown or was dismissed.
pub data Toast : Type 0 where
  sent : (hash : Text) → Toast
  confirmed : (hash : Text) → Toast
  failed : Failure → (hash : Option Text) → Toast

pub data Stage : Type 0 where
  at_wallet : Stage
  at_chain : (hash : Text) → Stage

pub record Send : Type 0 where
  pub toast : ℕ
  pub stage : Stage

pub record Hook : Type 0 where
  pub state : TxState
  pub attempt : ℕ
  pub live : ℕ
  pub toast_seq : ℕ
  pub sends : ℕ → Option Send
  pub toasts : ℕ → Option Toast

abbrev pub update {ℓ} : {A : Type ℓ} → (ℕ → A) → ℕ → A → ℕ → A
update f k a j = if j == k then a else f j

-- `reset` and `stopWaiting`, which do the same.
unfoldable pub stop_waiting : Hook → Hook
stop_waiting h = record h { live = suc h.live; state = TxState.idle }

-- `send`, up to its first await.
unfoldable pub send : Hook → Hook
send h = record {
  state = TxState.signing;
  attempt = suc h.attempt;
  live = suc h.live;
  toast_seq = suc h.toast_seq;
  sends =
      update h.sends (suc h.live) (some (record { toast = suc h.toast_seq; stage = at_wallet }));
  toasts = h.toasts;
}

-- `setState` behind `if (live.current !== mine) return false`, and the end of the send.
abbrev finish : ℕ → TxState → (ℕ → Option Toast) → Hook → Hook
finish mine state toasts h = record h {
  state = if h.live == mine then state else h.state;
  sends = update h.sends mine none;
  toasts = toasts;
}

-- The wallet answered with a hash; `connected` is whether there is a client to wait with.
abbrev on_hash : ℕ → ℕ → Text → Bool → Hook → Hook
on_hash mine toast hash connected h =
    let shown = update h.toasts toast (some (Toast.sent hash)) in
    let dropped = record h { sends = update h.sends mine none; toasts = shown } in
    let lost =
      finish mine (TxState.failed (coded no_connection) (some hash))
        (update shown toast (some (Toast.failed (coded no_connection) (some hash)))) h in
    let waiting = record h {
      state = TxState.pending hash;
      sends = update h.sends mine (some (record { toast = toast; stage = at_chain hash }));
      toasts = shown;
    } in
    if h.live == mine then (if connected then waiting else lost) else dropped

-- The receipt of a mined transaction.
abbrev on_receipt : ℕ → ℕ → Text → Bool → Hook → Hook
on_receipt mine toast hash was_reverted h =
    if was_reverted
    then finish mine (TxState.failed (coded reverted) (some hash))
        (update h.toasts toast (some (Toast.failed (coded reverted) (some hash)))) h
    else finish mine (TxState.confirmed hash) (update h.toasts toast (some (Toast.confirmed hash)))
        h

-- `firstLine` of the error's message: nothing gives `notSent`.
abbrev failure_of : Option Text → Failure
failure_of none = coded not_sent
failure_of (some line) = detailed line

-- An await threw. `rejected` is whether the message says that the user refused.
abbrev on_throw : ℕ → ℕ → Option Text → Bool → Option Text → Hook → Hook
on_throw mine toast hash rejected line h =
    if rejected
    then finish mine TxState.cancelled (update h.toasts toast none) h
    else finish mine (TxState.failed (failure_of line) hash)
        (update h.toasts toast (some (Toast.failed (failure_of line) hash))) h

-- What can happen next. An event names the send that it is about; one about a send that is not
-- in flight, or not at that await, does not occur.
pub data Event : Type 0 where
  begin stop : Event
  hashed : (mine : ℕ) (hash : Text) (connected : Bool) → Event
  mined : (mine : ℕ) (was_reverted : Bool) → Event
  threw : (mine : ℕ) (rejected : Bool) (line : Option Text) → Event

abbrev hash_of : Stage → Option Text
hash_of at_wallet = none
hash_of (at_chain hash) = some hash

abbrev hashed_at : Stage → ℕ → ℕ → Text → Bool → Hook → Hook
hashed_at at_wallet mine toast hash connected h = on_hash mine toast hash connected h
hashed_at (at_chain _) mine toast hash connected h = h

abbrev mined_at : Stage → ℕ → ℕ → Bool → Hook → Hook
mined_at at_wallet mine toast was_reverted h = h
mined_at (at_chain hash) mine toast was_reverted h = on_receipt mine toast hash was_reverted h

unfoldable pub step : Event → Hook → Hook
unfolding send stop_waiting
step begin h = send h
step stop h = stop_waiting h
step (hashed mine hash connected) h = elim (h.sends mine) [
  | none ↦ h
  | some s ↦ hashed_at s.stage mine s.toast hash connected h
]
step (mined mine was_reverted) h = elim (h.sends mine) [
  | none ↦ h
  | some s ↦ mined_at s.stage mine s.toast was_reverted h
]
step (threw mine rejected line) h = elim (h.sends mine) [
  | none ↦ h
  | some s ↦ on_throw mine s.toast (hash_of s.stage) rejected line h
]

unfoldable pub steps : List Event → Hook → Hook
steps [] h = h
steps (e ∷ es) h = steps es (step e h)

-- The hook as it mounts.
abbrev pub mounted : Hook
mounted = record {
  state = TxState.idle;
  attempt = 0;
  live = 0;
  toast_seq = 0;
  sends = λ _. none;
  toasts = λ _. none;
}
