-- ===== src/Resolution/Challenge.antt =====
-- The window that the page shows against the one that the contract keeps.
use ghoststake.Prelude.{
  ℕ, ◌∷◌, ◌+◌, ◌-◌, ◌*◌, ◌/◌, ◌^◌, ◌≤◌, ◌<◌, ◌≡◌, true, false, Option, some, arith,
}
use ghoststake.Text.{Text}
use ghoststake.Resolution.{
  RoundQuestion, proposed, challenge_window, challenge_accepts, finalise_accepts,
}

-- On a proposed outcome whose deadline reads as the contract's, at a clock that agrees with the
-- block's time: the contract takes a challenge wherever the window is shown as open; it is shown as
-- closed wherever the contract finalises and, besides, only in the last second; and the countdown
-- is the whole seconds left.
pub challenge_window-challenge_accepts :
    (parse : Text → Option ℕ) (q : RoundQuestion) (c : ℕ) (at : Text) (proposed_at window now : ℕ)
    → q.state ≡ proposed
    → q.challenge_closes_at ≡ some (c ∷ at)
    → parse (c ∷ at) ≡ some ((proposed_at + window) * 1000)
    → proposed_at + window < 2 ^ 64
    → (let shown = challenge_window parse q (some now) in
        (shown.is_open ≡ true → challenge_accepts q.state proposed_at window (now / 1000) ≡ true)
        × (finalise_accepts q.state proposed_at window (now / 1000) ≡ true → shown.is_open ≡ false)
        × (shown.is_open ≡ false → (proposed_at + window) * 1000 < now + 1000)
        × (shown.is_open ≡ true
            → (left : ℕ) × (shown.seconds_left ≡ some left)
              × (now + left * 1000 ≤ (proposed_at + window) * 1000)
              × ((proposed_at + window) * 1000 < now + (left + 1) * 1000)))
unfolding challenge_window challenge_accepts finalise_accepts
challenge_window-challenge_accepts parse q c at proposed_at window now p e f fits = (
  ground arith,
  ground arith,
  ground arith,
  λ o. (((proposed_at + window) * 1000 - now) / 1000, ground arith, ground arith, ground arith),
)
