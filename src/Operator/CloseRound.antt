-- ===== src/Operator/CloseRound.antt =====
-- The search for the feed round that a resolve has to name (`findCloseRound`). The chain's answer
-- to `readRound` is a function of the id: the time of the round, or nothing.
use native.Mathlib.Decide.{dec_lt}
use native.Mathlib.Nat.{le_refl}
use ghoststake.Prelude.{
  ℕ, zero, suc, ◌+◌, ◌-◌, ◌/◌, ◌≤◌, ◌<◌, ◌≡◌, ◌≢◌, ◌↔◌, ◌⊎◌, Bool, true, false, Option, none, some,
  inl, inr, arith, ltb, leb, ◌==◌, if◌then◌else◌, Bool-cases, Option-cases,
}

module _ (read_round : ℕ → Option ℕ) (close_time : ℕ) where
  -- P(id): the id holds no data, or its price is at or before the close.
  abbrev pub holds : ℕ → Bool
  holds id = elim (read_round id) [ none ↦ true | some updated_at ↦ leb updated_at close_time ]

  -- The `while` loop, with fuel, on `lo` and `hi`.
  unfoldable pub bisect : ℕ → ℕ → ℕ → ℕ × ℕ
  bisect zero lo hi = (lo, hi)
  bisect (suc fuel) lo hi =
      let mid = lo + (hi - lo) / 2 in
      let upper = bisect fuel mid hi in
      let lower = bisect fuel lo mid in
      if ltb 1 (hi - lo) then (if holds mid then upper else lower) else (lo, hi)

  unfoldable pub find_close_round : ℕ → Option ℕ
  find_close_round latest_round_id = elim (read_round latest_round_id) [
    | none ↦ none
    | some updated_at ↦
        let lo = (bisect latest_round_id 0 latest_round_id).0 in
        let answer : Option ℕ = elim (read_round lo) [ none ↦ none | some _ ↦ some lo ] in
        if leb updated_at close_time then none else if lo == 0 then none else answer
  ]

  -- What the adapter checks of a named round: it is at or before the close, and its successor
  -- exists and is after it.
  abbrev pub IsCloseRound : ℕ → Type 0
  IsCloseRound id =
      (u : ℕ) × (v : ℕ) × (read_round id ≡ some u)
      × (u ≤ close_time)
      × (read_round (id + 1) ≡ some v)
      × (close_time < v)

  -- The interval shrinks to two neighbours, and the test still passes below and fails above.
  bisect_lem :
      (fuel lo hi : ℕ)
      → hi - lo ≤ fuel
      → lo < hi
      → holds hi ≡ false
      → let (l, h) = bisect fuel lo hi in
        (h ≡ l + 1) × (lo ≤ l) × (h ≤ hi) × (holds h ≡ false) × ((l ≡ lo) ⊎ (holds l ≡ true))
  unfolding bisect
  bisect_lem zero lo hi fits lt above = absurd (omega arith)
  bisect_lem (suc fuel) lo hi fits lt above =
      let mid = lo + (hi - lo) / 2 in ground (arith, bisect_lem fuel mid hi, bisect_lem fuel lo mid)

  fails_above : (id : ℕ) → holds id ≡ false → (v : ℕ) × (read_round id ≡ some v) × (close_time < v)
  fails_above id h = ground arith

  bisect_all :
      (latest : ℕ)
      → 0 < latest
      → holds latest ≡ false
      → let (l, h) = bisect latest 0 latest in
        (h ≡ l + 1) × (h ≤ latest) × (holds h ≡ false) × ((l ≡ 0) ⊎ (holds l ≡ true))
  bisect_all latest pos above =
      let (a, b, c, d, e) = bisect_lem latest 0 latest (omega arith) pos above in (a, c, d, e)

  passes_below :
      (id : ℕ)
      → read_round id ≢ none
      → holds id ≡ true
      → (u : ℕ) × (read_round id ≡ some u) × (u ≤ close_time)
  passes_below id h e = elim (Option-cases (read_round id)) [
    | inl empty ↦ absurd (h empty)
    | inr (u, found) ↦ (u, found, ground arith)
  ]

  start : (latest : ℕ) → 0 < (bisect latest 0 latest).0 → 0 < latest
  unfolding bisect
  start zero h = h
  start (suc n) h = omega arith

  -- Whatever the feed holds, a round that the search returns is one that the adapter accepts.
  pub find_close_round-IsCloseRound :
      (latest id : ℕ)
      → find_close_round latest ≡ some id
      → IsCloseRound id × (0 < id) × (id < latest)
  unfolding find_close_round
  find_close_round-IsCloseRound latest id e =
      let above : holds latest ≡ false = ground arith in
      let same : (bisect latest 0 latest).0 ≡ id = ground arith in
      let pos : 0 < id = ground arith in
      let full : read_round id ≢ none = ground arith in
      let (step, top, over, under) = bisect_all latest (start latest (rw same pos)) above in
      let (v, next, late) = fails_above _ over in
      let (u, found, early) = passes_below id full (ground arith) in
      let next' : read_round (id + 1) ≡ some v = ground arith in
      ((u, v, found, early, next', late), pos, omega arith)

  -- The ids behave as on a proxy: id 0 and ids past the latest hold no data, and what passes the
  -- test lies below what fails it.
  pub record IsFeed (latest : ℕ) : Type 0 where
    pub floor : read_round 0 ≡ none
    pub ceiling : (id : ℕ) → latest < id → read_round id ≡ none
    pub ordered : (i j : ℕ) → i ≤ j → j ≤ latest → holds j ≡ true → holds i ≡ true

  in_range : (latest id : ℕ) → IsFeed latest → IsCloseRound id → id < latest
  in_range latest id feed (u, v, found, early, next, late) = elim (dec_lt id latest) [
    | yes p ↦ p
    | no p ↦ let empty = feed.ceiling (id + 1) (omega arith) in absurd (ground arith)
  ]

  -- Nothing at or past the successor of an accepted round passes the test.
  fails_past :
      (latest id j : ℕ) → IsFeed latest → IsCloseRound id → id < j → j ≤ latest → holds j ≡ false
  fails_past latest id j feed (u, v, found, early, next, late) lt le = elim (Bool-cases (holds j)) [
    | inl p ↦ let q = feed.ordered (id + 1) j (omega arith) le p in absurd (ground arith)
    | inr p ↦ p
  ]

  bisect-IsCloseRound :
      (latest id : ℕ) → IsFeed latest → IsCloseRound id → (bisect latest 0 latest).0 ≡ id
  bisect-IsCloseRound latest id feed c =
      let (u, v, found, early, next, late) = c in
      let lt = in_range latest id feed c in
      let (step, top, over, under) =
        bisect_all latest (omega arith) (fails_past latest id latest feed c lt (le_refl latest)) in
      let l = (bisect latest 0 latest).0 in
      let here : holds id ≡ true = ground arith in
      let low : ¬ (l < id) = λ p.
        let q = feed.ordered (bisect latest 0 latest).1 id (omega arith) (omega arith) here in cc in
      let high : ¬ (id < l) =
        λ p. let q = fails_past latest id l feed c p (omega arith) in ground arith in
      omega arith

  found_of_IsCloseRound :
      (latest id : ℕ) → IsFeed latest → IsCloseRound id → find_close_round latest ≡ some id
  unfolding find_close_round
  found_of_IsCloseRound latest id feed c =
      let (u, v, found, early, next, late) = c in
      let lt = in_range latest id feed c in
      let above = fails_past latest id latest feed c lt (le_refl latest) in
      let same = bisect-IsCloseRound latest id feed c in
      let floor = feed.floor in let pos : id ≢ 0 = λ z. ground arith in ground arith

  -- On such a feed the search finds every round that the adapter accepts, and so exactly one.
  find_close_round_iff :
      (latest id : ℕ) → IsFeed latest → (find_close_round latest ≡ some id) ↔ IsCloseRound id
  unfolding find_close_round
  find_close_round_iff latest id feed = (
    λ e. (find_close_round-IsCloseRound latest id e).0,
    λ c. found_of_IsCloseRound latest id feed c,
  )
