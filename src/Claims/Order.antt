-- ===== src/Claims/Order.antt =====
-- The order in which a run collects.
use mathlib.Core.List.{Perm}
use mathlib.Core.List.Perm
use ghoststake.Prelude.{
  ℕ, ◌≤◌, ◌≡◌, refl, ◌∙◌, List, [], ◌∷◌, arith, ltb, ◌==◌, filter, Bool-cases, inl, inr, All,
}
use ghoststake.Claims.{Claimable, insert, order_claims}

-- No claim is followed by a larger one.
abbrev pub IsDescending : List Claimable → Type 0
IsDescending [] = Unit
IsDescending (c ∷ cs) = All (λ d. d.amount ≤ c.amount) cs × IsDescending cs

All-below_insert :
    (n : ℕ) (c : Claimable) (cs : List Claimable)
    → c.amount ≤ n
    → All (λ d. d.amount ≤ n) cs
    → All (λ d. d.amount ≤ n) (insert c cs)
unfolding insert
All-below_insert n c [] p h = (p, tt)
All-below_insert n c (d ∷ cs) p (q, h) = ground (arith, All-below_insert n c cs p h)

All-weaken :
    (m n : ℕ) (cs : List Claimable)
    → m ≤ n
    → All (λ d. d.amount ≤ m) cs
    → All (λ d. d.amount ≤ n) cs
All-weaken m n [] p h = tt
All-weaken m n (c ∷ cs) p (q, h) = (omega arith, All-weaken m n cs p h)

insert-IsDescending :
    (c : Claimable) (cs : List Claimable) → IsDescending cs → IsDescending (insert c cs)
unfolding insert
insert-IsDescending c [] h = (tt, tt)
insert-IsDescending c (d ∷ cs) (below, h) = elim (Bool-cases (ltb c.amount d.amount)) [
  | inl lt ↦
      let le : c.amount ≤ d.amount = ground arith in
      rw lt (All-below_insert d.amount c cs le below, insert-IsDescending c cs h)
  | inr ge ↦
      let le : d.amount ≤ c.amount = ground arith in
      rw ge ((le, All-weaken d.amount c.amount cs le below), (below, h))
]

insert-perm : (c : Claimable) (cs : List Claimable) → Perm (insert c cs) (c ∷ cs)
unfolding insert
insert-perm c [] = Perm.refl (c ∷ [])
insert-perm c (d ∷ cs) = elim (Bool-cases (ltb c.amount d.amount)) [
  | inl lt ↦ rw lt (Perm.trans (Perm.cons d (insert-perm c cs)) (Perm.swap c d cs))
  | inr ge ↦ rw ge (Perm.refl (c ∷ d ∷ cs))
]

-- The claims of one amount.
abbrev pub worth : ℕ → List Claimable → List Claimable
worth n cs = filter (λ c. c.amount == n) cs

worth-insert :
    (n : ℕ) (c : Claimable) (cs : List Claimable) → worth n (insert c cs) ≡ worth n (c ∷ cs)
unfolding insert
worth-insert n c [] = refl
worth-insert n c (d ∷ cs) = ground (arith, worth-insert n c cs)

pub order_claims-perm : (cs : List Claimable) → Perm (order_claims cs) cs
unfolding order_claims
order_claims-perm [] = Perm.refl []
order_claims-perm (c ∷ cs) =
    Perm.trans (insert-perm c (order_claims cs)) (Perm.cons c (order_claims-perm cs))

order_claims-IsDescending : (cs : List Claimable) → IsDescending (order_claims cs)
unfolding order_claims
order_claims-IsDescending [] = tt
order_claims-IsDescending (c ∷ cs) =
    insert-IsDescending c (order_claims cs) (order_claims-IsDescending cs)

worth-order_claims : (n : ℕ) (cs : List Claimable) → worth n (order_claims cs) ≡ worth n cs
unfolding order_claims
worth-order_claims n [] = refl
worth-order_claims n (c ∷ cs) =
    worth-insert n c (order_claims cs) ∙ ground (arith, worth-order_claims n cs)

-- A run goes through the same claims, largest first, and keeps the order of equal ones.
pub order_claims_lem :
    (cs : List Claimable)
    → Perm (order_claims cs) cs
      × IsDescending (order_claims cs)
      × ((n : ℕ) → worth n (order_claims cs) ≡ worth n cs)
order_claims_lem cs =
    (order_claims-perm cs, order_claims-IsDescending cs, λ n. worth-order_claims n cs)
