-- ===== src/Claims/Run.antt =====
-- What a run leaves behind, whatever the chain and the wallet answer.
use ghoststake.Prelude.{
  ℕ, suc, ◌+◌, ◌≤◌, ◌<◌, ◌≡◌, ◌≢◌, refl, ap, Bool, true, false, not, List, [], ◌∷◌, ◌++◌, map,
  arith, filter, if◌then◌else◌, Bool-cases, inl, inr, length, length-append,
}
use mathlib.Core.List.{append_assoc}
use ghoststake.Claims.{
  Claimable, ClaimOutcome, Reply, outcome_of, stops, settle, loop, run, ClaimAll, order_claims,
  total_from, total_claimable, collected_from, collected, confirmed_amount, summarise, count_state,
}

abbrev pub claim_of : ClaimOutcome → Claimable
claim_of (ClaimOutcome.pending c) = c
claim_of (ClaimOutcome.claimed c h) = c
claim_of (ClaimOutcome.skipped c r) = c
claim_of (ClaimOutcome.cancelled c) = c
claim_of (ClaimOutcome.failed c r v) = c

module _ (reply : ℕ → Claimable → Reply) where
  -- The run as one pass over the queue: each claim is answered in turn, and after a refusal by
  -- the user the rest stays pending.
  abbrev pub answered : ℕ → List Claimable → List ClaimOutcome
  answered index [] = []
  answered index (c ∷ queue) =
      let rest = answered (suc index) queue in
      outcome_of c (reply index c)
      ∷ (if stops (reply index c) then map ClaimOutcome.pending queue else rest)

  settle_at :
      (xs ys : List ClaimOutcome) (o o' : ClaimOutcome)
      → settle (length xs) o' (xs ++ o ∷ ys) ≡ xs ++ o' ∷ ys
  unfolding settle
  settle_at [] ys o o' = refl
  settle_at (x ∷ xs) ys o o' = ap (λ t. x ∷ t) (settle_at xs ys o o')

  -- The loop that replaces outcomes by index is that pass.
  loop-eq-answered :
      (index : ℕ) (settled : List ClaimOutcome) (queue : List Claimable)
      → length settled ≡ index
      → loop reply index queue (settled ++ map ClaimOutcome.pending queue)
        ≡ settled ++ answered index queue
  unfolding loop
  loop-eq-answered index settled [] e = refl
  loop-eq-answered index settled (c ∷ queue) e =
      let o = outcome_of c (reply index c) in
      let waiting = map ClaimOutcome.pending queue in
      let here : settle index o (settled ++ ClaimOutcome.pending c ∷ waiting)
          ≡ settled ++ o ∷ waiting =
        rw (← e) (
          settle_at settled waiting (ClaimOutcome.pending c)
            (outcome_of c (reply (length settled) c))) in
      let later =
        loop-eq-answered (suc index) (settled ++ o ∷ []) queue
          (omega (arith, length-append settled (o ∷ []), e)) in
      elim (Bool-cases (stops (reply index c))) [
        | inl stop ↦ rw (stop, here)
        | inr go ↦
            rw (go, here)
              (rw
                (
                  append_assoc settled (o ∷ []) waiting,
                  append_assoc settled (o ∷ []) (answered (suc index) queue),
                )
                at later)
      ]

  pending-claims : (queue : List Claimable) → map claim_of (map ClaimOutcome.pending queue) ≡ queue
  pending-claims [] = refl
  pending-claims (c ∷ queue) = ap (λ t. c ∷ t) (pending-claims queue)

  answered-claims :
      (index : ℕ) (queue : List Claimable) → map claim_of (answered index queue) ≡ queue
  answered-claims index [] = refl
  answered-claims index (c ∷ queue) =
      ground (arith, pending-claims queue, answered-claims (suc index) queue)

  count_pending-zero :
      (n : ℕ) (queue : List Claimable) → 0 < n → count_state n (map ClaimOutcome.pending queue) ≡ 0
  unfolding count_state
  count_pending-zero n [] h = refl
  count_pending-zero n (c ∷ queue) h = ground (arith, count_pending-zero n queue h)

  -- At most one refusal by the user, and claims are left only after one.
  answered-counts :
      (index : ℕ) (queue : List Claimable)
      → let os = answered index queue in
        (count_state 3 os ≤ 1) × (0 < count_state 0 os → count_state 3 os ≡ 1)
  unfolding count_state
  answered-counts index [] = (omega arith, λ h. absurd (omega arith))
  answered-counts index (c ∷ queue) =
      ground (arith, count_pending-zero 3 queue, answered-counts (suc index) queue)

abbrev sum_by {ℓ} : {A : Type ℓ} → (A → ℕ) → List A → ℕ
sum_by f [] = 0
sum_by f (x ∷ xs) = f x + sum_by f xs

total_from-sum : (n : ℕ) (cs : List Claimable) → total_from n cs ≡ n + sum_by (λ c. c.amount) cs
unfolding total_from
total_from-sum n [] = omega arith
total_from-sum n (c ∷ cs) = omega (arith, total_from-sum (n + c.amount) cs)

total_claimable-sum : (cs : List Claimable) → total_claimable cs ≡ sum_by (λ c. c.amount) cs
unfolding total_claimable
total_claimable-sum cs = omega (arith, total_from-sum 0 cs)

collected_from-sum :
    (n : ℕ) (os : List ClaimOutcome) → collected_from n os ≡ n + sum_by confirmed_amount os
unfolding collected_from
collected_from-sum n [] = omega arith
collected_from-sum n (o ∷ os) = omega (arith, collected_from-sum (n + confirmed_amount o) os)

collected-sum : (os : List ClaimOutcome) → collected os ≡ sum_by confirmed_amount os
unfolding collected
collected-sum os = omega (arith, collected_from-sum 0 os)

abbrev pub is_claimed : ClaimOutcome → Bool
is_claimed (ClaimOutcome.claimed c h) = true
is_claimed _ = false

-- The claims whose money is still in the contract.
abbrev pub uncollected : List ClaimOutcome → List Claimable
uncollected os = map claim_of (filter (λ o. not (is_claimed o)) os)

split-sum :
    (os : List ClaimOutcome)
    → sum_by confirmed_amount os + sum_by (λ c. c.amount) (uncollected os)
      ≡ sum_by (λ c. c.amount) (map claim_of os)
split-sum [] = refl
split-sum (o ∷ os) = ground (arith, split-sum os)

-- Only confirmed claims count: what was collected and what is left make up the whole.
collected_balance :
    (os : List ClaimOutcome)
    → collected os + total_claimable (uncollected os) ≡ total_claimable (map claim_of os)
collected_balance os = omega (
  arith,
  collected-sum os,
  total_claimable-sum (uncollected os),
  total_claimable-sum (map claim_of os),
  split-sum os,
)

counts_cover :
    (os : List ClaimOutcome)
    → count_state 0 os + count_state 1 os + count_state 2 os + count_state 3 os + count_state 4 os
      ≡ length os
unfolding count_state
counts_cover [] = refl
counts_cover (o ∷ os) = ground (arith, counts_cover os)

-- The summary counts every outcome once.
pub summarise_cover :
    (os : List ClaimOutcome)
    → let s = summarise os in
      s.claimed + s.skipped + s.failed + s.cancelled + s.remaining ≡ length os
unfolding summarise
summarise_cover os = omega (arith, counts_cover os)

run_step :
    (reply : ℕ → Claimable → Reply) (cs : List Claimable) (s : ClaimAll)
    → s.running ≡ false
    → cs ≢ []
    → run true reply cs s
      ≡ record { outcomes = answered reply 0 (order_claims cs); running = false }
unfolding run
run_step reply [] s idle ne = absurd (ne refl)
run_step reply (c ∷ cs) s idle ne =
    let main = loop-eq-answered reply 0 [] (order_claims (c ∷ cs)) refl in ground (arith, main)

-- A run that goes ahead is over in the end, with one outcome for each claim, largest first; claims
-- are left unattempted only behind a refusal by the user, of which there is at most one.
pub run_lem :
    (reply : ℕ → Claimable → Reply) (cs : List Claimable) (s : ClaimAll)
    → s.running ≡ false
    → cs ≢ []
    → let s' = run true reply cs s in
      (s'.running ≡ false)
      × (map claim_of s'.outcomes ≡ order_claims cs)
      × ((summarise s'.outcomes).cancelled ≤ 1)
      × (0 < (summarise s'.outcomes).remaining → (summarise s'.outcomes).cancelled ≡ 1)
unfolding summarise
run_lem reply cs s idle ne =
    let os = answered-counts reply 0 (order_claims cs) in
    rw (run_step reply cs s idle ne) (refl, answered-claims reply 0 (order_claims cs), os.0, os.1)
