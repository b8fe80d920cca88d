-- ===== src/Transaction/Safety.antt =====
-- What the form shows belongs to the send that it waits for.
use ghoststake.Prelude.{
  ℕ, suc, ◌<◌, ◌≡◌, ◌≢◌, refl, Bool, true, false, Option, none, some, List, [], ◌∷◌, arith,
}
use ghoststake.Text.{Text}
use ghoststake.Transaction.{
  TxState, Stage, at_wallet, at_chain, Send, Hook, Event, begin, stop, hashed, mined, threw, step,
  steps, mounted,
}

abbrev pub is_busy : TxState → Bool
is_busy TxState.signing = true
is_busy (TxState.pending hash) = true
is_busy _ = false

abbrev pub stage_state : Stage → TxState
stage_state at_wallet = TxState.signing
stage_state (at_chain hash) = TxState.pending hash

-- The live send's stage against what is shown.
abbrev pub Shows : Option Send → TxState → Type 0
Shows none state = is_busy state ≡ false
Shows (some s) state = state ≡ stage_state s.stage

-- The form shows a wait exactly while the live send is in flight, and the wait that it is at; and
-- no send is ahead of the live one.
pub record IsSound (h : Hook) : Type 0 where
  pub shows : Shows (h.sends h.live) h.state
  pub fresh : (m : ℕ) → h.live < m → h.sends m ≡ none

begin-IsSound : (h : Hook) → IsSound h → IsSound (step begin h)
unfolding step
begin-IsSound h v = record {
  shows = ground arith;
  fresh = λ m lt. let old = v.fresh m (omega arith) in ground arith;
}

stop-IsSound : (h : Hook) → IsSound h → IsSound (step stop h)
unfolding step
stop-IsSound h v = record {
  shows = let old = v.fresh (suc h.live) (omega arith) in ground arith;
  fresh = λ m lt. v.fresh m (omega arith);
}

hashed-IsSound :
    (mine : ℕ) (hash : Text) (connected : Bool) (h : Hook)
    → IsSound h
    → IsSound (step (hashed mine hash connected) h)
unfolding step
hashed-IsSound mine hash connected h v = record {
  shows = ground arith;
  fresh = λ m lt. let old = v.fresh m in let shown = v.shows in ground arith;
}

mined-IsSound :
    (mine : ℕ) (was_reverted : Bool) (h : Hook)
    → IsSound h
    → IsSound (step (mined mine was_reverted) h)
unfolding step
mined-IsSound mine was_reverted h v = record {
  shows = ground arith;
  fresh = λ m lt. let old = v.fresh m in let shown = v.shows in ground arith;
}

threw-IsSound :
    (mine : ℕ) (rejected : Bool) (line : Option Text) (h : Hook)
    → IsSound h
    → IsSound (step (threw mine rejected line) h)
unfolding step
threw-IsSound mine rejected line h v = record {
  shows = ground arith;
  fresh = λ m lt. let old = v.fresh m in let shown = v.shows in ground arith;
}

step-IsSound : (e : Event) (h : Hook) → IsSound h → IsSound (step e h)
step-IsSound begin h v = begin-IsSound h v
step-IsSound stop h v = stop-IsSound h v
step-IsSound (hashed mine hash connected) h v = hashed-IsSound mine hash connected h v
step-IsSound (mined mine was_reverted) h v = mined-IsSound mine was_reverted h v
step-IsSound (threw mine rejected line) h v = threw-IsSound mine rejected line h v

steps-IsSound : (es : List Event) (h : Hook) → IsSound h → IsSound (steps es h)
unfolding steps
steps-IsSound [] h v = v
steps-IsSound (e ∷ es) h v = steps-IsSound es (step e h) (step-IsSound e h v)

-- Whatever happens in whatever order from the mount on, the form shows a wait exactly while the
-- send that it waits for is in flight.
pub steps-mounted-IsSound : (es : List Event) → IsSound (steps es mounted)
steps-mounted-IsSound es = steps-IsSound es mounted (record { shows = refl; fresh = λ m lt. refl })

-- The send that an event is about.
abbrev pub subject : Event → Option ℕ
subject begin = none
subject stop = none
subject (hashed mine hash connected) = some mine
subject (mined mine was_reverted) = some mine
subject (threw mine rejected line) = some mine

-- An abandoned send, when its wallet or its receipt answers at last, writes over neither a newer
-- send nor a form that stopped waiting.
step-abandoned :
    (e : Event) (m : ℕ) (h : Hook)
    → subject e ≡ some m
    → m ≢ h.live
    → ((step e h).state ≡ h.state)
      × ((step e h).live ≡ h.live)
      × ((step e h).attempt ≡ h.attempt)
      × ((step e h).sends h.live ≡ h.sends h.live)
unfolding step
step-abandoned begin m h s old = cc
step-abandoned stop m h s old = cc
step-abandoned (hashed mine hash connected) m h s old = ground arith
step-abandoned (mined mine was_reverted) m h s old = ground arith
step-abandoned (threw mine rejected line) m h s old = ground arith
