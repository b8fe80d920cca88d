-- ===== src/Stalled/Wait.antt =====
-- When an attempt counts as stalled.
use ghoststake.Prelude.{
  ℕ, ◌+◌, ◌-◌, ◌<◌, ◌≡◌, refl, ◌∙◌, Bool, true, false, same_bool, ◌&&◌, Option, none, some, List,
  [], ◌∷◌, leb, ◌==◌, arith, Bool-cases, inl, inr,
}
use ghoststake.Stalled.{
  StalledHook, render, is_for, stalled, Beat, rerendered, passed, beat, beats, waited,
}

==_refl : (n : ℕ) → (n == n) ≡ true
==_refl n = ground arith

-- An attempt whose timer has some time left, and one whose timer has fired.
abbrev pending : ℕ → ℕ → Option ℕ → ℕ → StalledHook
pending key after old left = record {
  active = true;
  restart_key = key;
  after_ms = after;
  stalled_key = old;
  timer = some (record { key = key; left = left });
}

abbrev expired : ℕ → ℕ → StalledHook
expired key after = record {
  active = true;
  restart_key = key;
  after_ms = after;
  stalled_key = some key;
  timer = none;
}

-- A render with the same arguments changes nothing.
beat-rerendered_pending :
    (key after left : ℕ) (old : Option ℕ)
    → beat (pending key after old left) rerendered ≡ pending key after old left
beat-rerendered_pending key after left old = rw (==_refl after, ==_refl key) refl

beat-rerendered_expired : (key after : ℕ) → beat (expired key after) rerendered ≡ expired key after
beat-rerendered_expired key after = rw (==_refl after, ==_refl key) refl

beat-fires :
    (key after left ms : ℕ) (old : Option ℕ)
    → leb left ms ≡ true
    → beat (pending key after old left) (passed ms) ≡ expired key after
beat-fires key after left ms old h = rw h refl

beat-waits :
    (key after left ms : ℕ) (old : Option ℕ)
    → leb left ms ≡ false
    → beat (pending key after old left) (passed ms) ≡ pending key after old (left - ms)
beat-waits key after left ms old h = rw h refl

beats-step :
    (h : StalledHook) {h' : StalledHook} {v : Bool} (b : Beat) (bs : List Beat)
    → beat h b ≡ h'
    → stalled (beats h' bs) ≡ v
    → stalled (beats h (b ∷ bs)) ≡ v
unfolding beats
beats-step h b bs e rest = (λ i. stalled (beats (e i) bs)) ∙ rest

expired-beats : (key after : ℕ) (bs : List Beat) → stalled (beats (expired key after) bs) ≡ true
unfolding beats
expired-beats key after [] = ==_refl key
expired-beats key after (rerendered ∷ bs) =
    beats-step (expired key after) rerendered bs (beat-rerendered_expired key after)
      (expired-beats key after bs)
expired-beats key after (passed ms ∷ bs) = expired-beats key after bs

pending-beats :
    (key after left : ℕ) (old : Option ℕ) (bs : List Beat)
    → is_for old key ≡ false
    → 0 < left
    → stalled (beats (pending key after old left) bs) ≡ leb left (waited bs)
unfolding beats
pending-beats key after left old [] new some_left = rw new (ground arith)
pending-beats key after left old (rerendered ∷ bs) new some_left =
    beats-step (pending key after old left) rerendered bs
      (beat-rerendered_pending key after left old)
      (pending-beats key after left old bs new some_left)
pending-beats key after left old (passed ms ∷ bs) new some_left = elim (Bool-cases (leb left ms)) [
  | inl due ↦
      let late : leb left (ms + waited bs) ≡ true = ground arith in
      beats-step (pending key after old left) (passed ms) bs (beat-fires key after left ms old due)
        (rw late (expired-beats key after bs))
  | inr not_due ↦
      let rest = pending-beats key after (left - ms) old bs new (ground arith) in
      let same : leb left (ms + waited bs) ≡ leb (left - ms) (waited bs) = ground arith in
      beats-step (pending key after old left) (passed ms) bs
        (beat-waits key after left ms old not_due) (rw same rest)
]

and-false : (a b c : Bool) → c ≡ false → (a && (b && c)) ≡ false
and-false a b c h = ground arith

-- A fresh attempt starts its own wait, whatever stood before.
render-fresh :
    (h : StalledHook) (key after : ℕ)
    → (h.restart_key == key) ≡ false
    → render true key after h ≡ pending key after h.stalled_key after
render-fresh h key after fresh =
    rw (and-false (same_bool h.active true) (h.after_ms == after) (h.restart_key == key) fresh) refl

-- From the render in which an active attempt begins under a key that is neither the last attempt's
-- nor the verdict's, whatever the hook held before and however often it is rendered again with the
-- same arguments, it says stalled exactly when at least its limit has passed, for a limit above
-- zero.
pub stalled_iff_waited :
    (h : StalledHook) (key after : ℕ) (bs : List Beat)
    → (h.restart_key == key) ≡ false
    → is_for h.stalled_key key ≡ false
    → 0 < after
    → stalled (beats (render true key after h) bs) ≡ leb after (waited bs)
stalled_iff_waited h key after bs fresh new some_limit =
    rw (render-fresh h key after fresh)
      (pending-beats key after after h.stalled_key bs new some_limit)
