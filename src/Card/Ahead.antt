-- ===== src/Card/Ahead.antt =====
-- The side that the card says is ahead, and the one that the contract resolves for.
use ghoststake.Prelude.{ℕ, ◌≡◌, ◌≢◌, ◌≤◌, ◌<◌, true, false, some, ltb, if◌then◌else◌, arith}
use mathlib.Core.Path.{subst}
use ghoststake.Prelude.Int.{ℤ, sub_ℕ, scale, tdiv}
use ghoststake.Rounds.{Status, Side}
use ghoststake.Question.{side_key}
use ghoststake.Spot.{Standing, standing_at, standing_of, is_narrow}
use ghoststake.Spot.Leader.{standing_of-resolve_round}
use ghoststake.Market.{resolve_round}
use ghoststake.Reads.Feeds.{Spot}
use ghoststake.Card.{CardProps, PriceLine, Move, ahead, move_of, price_line, spot_line}

even_narrow : (p : ℕ) → is_narrow (tdiv (scale (sub_ℕ p p) 10000) p) ≡ true
unfolding is_narrow tdiv scale
even_narrow p = ground arith

move_of-inv :
    (bps : ℤ) (s side : Side) (m : Move)
    → move_of (record { leading = some s; bps = some bps }) ≡ some m
    → m.lean ≡ ahead (side_key side)
    → (s ≡ side) × (is_narrow bps ≡ false)
unfolding side_key
move_of-inv bps s side m h e = ground arith

known : (p k : ℕ) (m : Move) → move_of (standing_at p k) ≡ some m → (0 < p) × (0 < k)
known p k m h = ground arith

-- The standing of two prices that are not zero.
abbrev standing_known : ℕ → ℕ → Standing
standing_known p k = record {
  leading = some (if ltb k p then Side.up else Side.down);
  bps = some (tdiv (scale (sub_ℕ p k) 10000) k);
}

standing_at-known : (p k : ℕ) → 0 < p → 0 < k → standing_at p k ≡ standing_known p k
standing_at-known p k hp hk = ground arith

ahead_leads :
    (p k : ℕ) (m : Move) (side : Side)
    → move_of (standing_at p k) ≡ some m
    → m.lean ≡ ahead (side_key side)
    → (0 < p) × (0 < k) × ((standing_at p k).leading ≡ some side) × (p ≢ k)
ahead_leads p k m side h e =
    let (hp, hk) = known p k m h in
    let is_at = standing_at-known p k hp hk in
    let moved = subst (λ (st : Standing). move_of st ≡ some m) is_at h in
    let (leads, wide) = move_of-inv _ _ side m moved e in
    let level : p ≡ k → is_narrow (tdiv (scale (sub_ℕ p k) 10000) k) ≡ true =
      λ same. rw same (even_narrow k) in
    (hp, hk, rw is_at (λ i. some (leads i)), λ same. let narrow = level same in cc)

-- Where the card of a locked round past its close says that a side is ahead, the contract,
-- resolved at the price that the card shows, resolves for that side.
pub spot_line-resolve_round :
    (props : CardProps) (spot : Spot) (now : ℕ) (line : PriceLine) (m : Move) (side : Side)
    → props.spot ≡ some spot
    → props.round.status ≡ Status.locked
    → props.round.close_time ≤ now
    → (spot_line props).line ≡ some line
    → line.move ≡ some m
    → m.lean ≡ ahead (side_key side)
    → resolve_round props.round (some spot.price) now ≡ some (Status.resolved, some side)
unfolding spot_line price_line standing_of
spot_line-resolve_round props spot now line m side priced locked late is_line is_move leans =
    let h : move_of (standing_of (some spot.price) (some props.round.lock_price)) ≡ some m =
      ground arith in
    let (p, k, leads, off) = ahead_leads spot.price props.round.lock_price m side h leans in
    ((standing_of-resolve_round props.round spot.price now side locked late p k).0).1 (leads, off)
