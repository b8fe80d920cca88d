-- ===== src/Pool/Entries.antt =====
-- `mapping(address => uint256)` as a list of entries: what was never written reads as zero.
use ghoststake.Prelude.{ℕ, ◌+◌, ◌≤◌, ◌≡◌, List, [], ◌∷◌, ◌==◌, if◌then◌else◌, arith}

pub record Entry : Type 0 where
  pub user : ℕ
  pub amount : ℕ

abbrev pub Mapping : Type 0
Mapping = List Entry

unfoldable pub value_at : ℕ → Mapping → ℕ
value_at user [] = 0
value_at user (e ∷ es) = let rest = value_at user es in if e.user == user then e.amount else rest

unfoldable pub assign : ℕ → ℕ → Mapping → Mapping
assign user amount [] = record { user = user; amount = amount } ∷ []
assign user amount (e ∷ es) =
    let rest = assign user amount es in
    if e.user == user then record { user = user; amount = amount } ∷ es else e ∷ rest

abbrev pub sum : Mapping → ℕ
sum [] = 0
sum (e ∷ es) = e.amount + sum es

pub sum-assign :
    (user amount : ℕ) (es : Mapping)
    → sum (assign user amount es) + value_at user es ≡ sum es + amount
unfolding assign value_at
sum-assign user amount [] = omega arith
sum-assign user amount (e ∷ es) = ground (arith, sum-assign user amount es)

pub value_at-le-sum : (user : ℕ) (es : Mapping) → value_at user es ≤ sum es
unfolding value_at
value_at-le-sum user [] = omega arith
value_at-le-sum user (e ∷ es) = ground (arith, value_at-le-sum user es)

pub value_at-assign :
    (user amount v : ℕ) (es : Mapping)
    → value_at v (assign user amount es) ≡ (if user == v then amount else value_at v es)
unfolding assign value_at
value_at-assign user amount v [] = ground arith
value_at-assign user amount v (e ∷ es) = ground (arith, value_at-assign user amount v es)
