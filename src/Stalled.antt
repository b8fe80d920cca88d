-- ===== src/Stalled.antt =====
-- How long a wallet gets to answer: ghoststake-frontend/src/hooks/useStalled.ts. The state is what
-- React keeps for the hook; time passes in whole milliseconds, and the timer fires once it is due. A
-- limit is taken to be below 2^31 milliseconds, above which the browser's timer fires at once.
pub mod Wait
use ghoststake.Prelude.{
  ℕ, ◌+◌, ◌-◌, Bool, true, false, same_bool, ◌&&◌, Option, none, some, List, [], ◌∷◌, ltb, leb,
  ◌==◌, if◌then◌else◌,
}

-- `STALL_AFTER_MS`, the limit where the caller gives none.
abbrev pub stall_after_ms : ℕ
stall_after_ms = 8000

-- A running timer: the key that it stores, and the time that is left.
pub record Timer : Type 0 where
  pub key : ℕ
  pub left : ℕ

-- The arguments of the last render, the verdict and the timer.
pub record StalledHook : Type 0 where
  pub active : Bool
  pub restart_key : ℕ
  pub after_ms : ℕ
  pub stalled_key : Option ℕ
  pub timer : Option Timer

-- `[active, afterMs, restartKey]` as in the last render.
abbrev pub same_deps : StalledHook → Bool → ℕ → ℕ → Bool
same_deps h active restart_key after_ms =
    same_bool h.active active && ((h.after_ms == after_ms) && (h.restart_key == restart_key))

-- The effect's body: no timer unless `active`.
abbrev pub start : Bool → ℕ → ℕ → Option Timer
start false restart_key after_ms = none
start true restart_key after_ms = some (record { key = restart_key; left = after_ms })

abbrev pub mount : Bool → ℕ → ℕ → StalledHook
mount active restart_key after_ms = record {
  active = active;
  restart_key = restart_key;
  after_ms = after_ms;
  stalled_key = none;
  timer = start active restart_key after_ms;
}

-- A render: where a dependency changed, the old timer is cleared and the effect runs again.
abbrev pub render : Bool → ℕ → ℕ → StalledHook → StalledHook
render active restart_key after_ms h = record {
  active = active;
  restart_key = restart_key;
  after_ms = after_ms;
  stalled_key = h.stalled_key;
  timer =
      if same_deps h active restart_key after_ms
      then h.timer
      else start active restart_key after_ms;
}

abbrev pub tick : ℕ → Option Timer → Option ℕ → Option ℕ × Option Timer
tick ms none stalled_key = (stalled_key, none)
tick ms (some t) stalled_key =
    if leb t.left ms
    then (some t.key, none)
    else (stalled_key, some (record { key = t.key; left = t.left - ms }))

-- Time passes, and `setTimeout` calls `setStalledKey(restartKey)` when it is due.
abbrev pub elapse : ℕ → StalledHook → StalledHook
elapse ms h =
    let after = tick ms h.timer h.stalled_key in
    record {
      active = h.active;
      restart_key = h.restart_key;
      after_ms = h.after_ms;
      stalled_key = after.0;
      timer = after.1;
    }

-- `stalledKey === restartKey`
abbrev pub is_for : Option ℕ → ℕ → Bool
is_for none key = false
is_for (some k) key = k == key

-- What the hook returns.
abbrev pub stalled : StalledHook → Bool
stalled h = h.active && is_for h.stalled_key h.restart_key

-- What happens to a hook whose arguments stay as they are.
pub data Beat : Type 0 where
  rerendered : Beat
  passed : (ms : ℕ) → Beat

abbrev pub beat : StalledHook → Beat → StalledHook
beat h rerendered = render h.active h.restart_key h.after_ms h
beat h (passed ms) = elapse ms h

unfoldable pub beats : StalledHook → List Beat → StalledHook
beats h [] = h
beats h (b ∷ bs) = beats (beat h b) bs

-- The time that passes.
abbrev pub waited : List Beat → ℕ
waited [] = 0
waited (rerendered ∷ bs) = waited bs
waited (passed ms ∷ bs) = ms + waited bs
