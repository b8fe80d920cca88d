-- ===== src/Market/Custody/Solvent.antt =====
-- The contract holds what it owes: the invariant, kept by every call.
use ghoststake.Prelude.{
  ℕ, zero, suc, ◌+◌, ◌-◌, ◌≤◌, ◌≡◌, ◌≢◌, refl, Bool, true, false, List, [], ◌∷◌, arith, Option,
  none, some, All, get_elem?,
}
use ghoststake.Rounds.{Round, wad}
use ghoststake.Market.Custody.{
  Book, State, Terms, Context, holding_of, set_at, book_at, with_book, claim_on, settle_round,
  claimed_book, claimable_by, claim,
}
use ghoststake.Market.Custody.Contract.{store, store_settled}
use ghoststake.Market.Custody.Sums.{owed}
use ghoststake.Market.Custody.Covered.{IsPooled, IsCovered, claim-IsCovered, settle_round-IsCovered}

abbrev pub owed_all : List Book → ℕ
owed_all [] = 0
owed_all (b ∷ bs) = owed b + owed_all bs

-- What the contract holds covers the fees and what every round may still have to pay.
pub record IsSolvent (s : State) : Type 0 where
  pub pooled : All IsPooled s.books
  pub covered : s.protocol_fees + owed_all s.books ≤ s.balance

pub some_inj {ℓ} : {A : Type ℓ} {x y : A} → some x ≡ some y → x ≡ y
some_inj e = cc e

owed_all-set_at :
    (bs : List Book) (i : ℕ) (b b' : Book)
    → get_elem? bs i ≡ some b
    → owed_all (set_at bs i b') + owed b ≡ owed_all bs + owed b'
unfolding set_at
owed_all-set_at [] i b b' e = cc
owed_all-set_at (x ∷ bs) zero b b' e = ground arith
owed_all-set_at (x ∷ bs) (suc i) b b' e = omega (arith, owed_all-set_at bs i b b' e)

IsPooled-set_at :
    (bs : List Book) (i : ℕ) (b' : Book)
    → All IsPooled bs
    → IsPooled b'
    → All IsPooled (set_at bs i b')
unfolding set_at
IsPooled-set_at [] i b' h p = tt
IsPooled-set_at (x ∷ bs) zero b' h p = (p, h.1)
IsPooled-set_at (x ∷ bs) (suc i) b' h p = (h.0, IsPooled-set_at bs i b' h.1 p)

IsPooled-at :
    (bs : List Book) (i : ℕ) (b : Book) → All IsPooled bs → get_elem? bs i ≡ some b → IsPooled b
IsPooled-at [] i b h e = cc
IsPooled-at (x ∷ bs) zero b h e = rw (← some_inj e) h.0
IsPooled-at (x ∷ bs) (suc i) b h e = IsPooled-at bs i b h.1 e

-- A book replaced by one that it covers keeps the contract solvent.
put-IsSolvent :
    (s s' : State) (i : ℕ) (b b' : Book) (gained fees : ℕ)
    → IsSolvent s
    → get_elem? s.books i ≡ some b
    → IsCovered b b' gained fees
    → s'.books ≡ set_at s.books i b'
    → s'.protocol_fees ≡ s.protocol_fees + fees
    → s'.balance ≡ s.balance + gained
    → IsSolvent s'
put-IsSolvent s s' i b b' gained fees h e k books fee held =
    let sum = owed_all-set_at s.books i b b' e in
    record {
      pooled = rw books (IsPooled-set_at s.books i b' h.pooled k.0);
      covered = rw books (omega (arith, h.covered, sum, k.1, fee, held));
    }

book_at-IsPooled :
    (s : State) (id : ℕ) (b : Book) → IsSolvent s → book_at s id ≡ some b → IsPooled b
unfolding book_at
book_at-IsPooled s zero b h e = cc
book_at-IsPooled s (suc i) b h e = IsPooled-at s.books i b h.pooled e

with_book-some {ℓ} :
    {A : Type ℓ} (o : Option Book) (f : Book → Option A) {a : A}
    → with_book o f ≡ some a
    → (b : Book) × (o ≡ some b) × (f b ≡ some a)
with_book-some none f e = cc
with_book-some (some b) f e = (b, refl, e)

store-some :
    (s s' : State) (i amount : ℕ) (o : Option Book)
    → store s (suc i) amount o ≡ some s'
    → (b : Book) × (o ≡ some b)
      × (s'.books ≡ set_at s.books i b)
      × (s'.protocol_fees ≡ s.protocol_fees + 0)
      × (s'.balance ≡ s.balance + amount)
store-some s s' i amount none e = cc
store-some s s' i amount (some b) e = (b, refl, ground arith, ground arith, ground arith)

-- An operation on one book that covers what it changes.
pub store-IsSolvent :
    (s s' : State) (id amount : ℕ) (f : Book → Option Book)
    → IsSolvent s
    → ((b b' : Book) → IsPooled b → f b ≡ some b' → IsCovered b b' amount 0)
    → with_book (book_at s id) (λ b. store s id amount (f b)) ≡ some s'
    → IsSolvent s'
unfolding book_at
store-IsSolvent s s' zero amount f h k e = cc
store-IsSolvent s s' (suc i) amount f h k e =
    let (b, at, stored) =
      with_book-some (get_elem? s.books i) (λ b. store s (suc i) amount (f b)) e in
    let (b', done, books, fee, held) = store-some s s' i amount (f b) stored in
    put-IsSolvent s s' i b b' amount 0 h at (k b b' (IsPooled-at s.books i b h.pooled at) done)
      books fee held

settled_some :
    (s s' : State) (i : ℕ) (b : Book) (o : Option (Round × ℕ))
    → store_settled s (suc i) b o ≡ some s'
    → (r : Round) × (fees : ℕ) × (o ≡ some (r, fees))
      × (s'.books ≡ set_at s.books i (record b { round = r }))
      × (s'.protocol_fees ≡ s.protocol_fees + fees)
      × (s'.balance ≡ s.balance + 0)
settled_some s s' i b none e = cc
settled_some s s' i b (some (r, fees)) e = (r, fees, refl, ground arith, ground arith, ground arith)

pub resolve-IsSolvent :
    (t : Terms) (c : Context) (s s' : State) (id : ℕ) (reads : Option ℕ)
    → t.rake ≤ wad
    → IsSolvent s
    → with_book (book_at s id) (λ b. store_settled s id b (settle_round t c b.round reads))
      ≡ some s'
    → IsSolvent s'
unfolding book_at
resolve-IsSolvent t c s s' zero reads low h e = cc
resolve-IsSolvent t c s s' (suc i) reads low h e =
    let (b, at, stored) =
      with_book-some (get_elem? s.books i)
        (λ b. store_settled s (suc i) b (settle_round t c b.round reads)) e in
    let (r, fees, done, books, fee, held) =
      settled_some s s' i b (settle_round t c b.round reads) stored in
    let covered =
      settle_round-IsCovered t c b r reads fees low (IsPooled-at s.books i b h.pooled at) done in
    put-IsSolvent s s' i b (record b { round = r }) 0 fees h at covered books fee held

owed_all-le : (bs : List Book) (i : ℕ) (b : Book) → get_elem? bs i ≡ some b → owed b ≤ owed_all bs
owed_all-le [] i b e = cc
owed_all-le (x ∷ bs) zero b e = ground arith
owed_all-le (x ∷ bs) (suc i) b e = omega (arith, owed_all-le bs i b e)

-- In a solvent market, a holding that is not marked as claimed and has something to claim is paid
-- in full when the recipient accepts it, and the claim changes nothing but that holding and the
-- balance.
pub claim_paid :
    (s : State) (i user : ℕ) (b : Book)
    → IsSolvent s
    → get_elem? s.books i ≡ some b
    → (holding_of user b.holdings).stake.claimed ≡ false
    → claimable_by b user ≢ 0
    → claim s (suc i) user true
      ≡ some (record s {
        books = set_at s.books i (claimed_book b (holding_of user b.holdings));
        balance = s.balance - claimable_by b user;
      })
unfolding claim claim_on book_at
claim_paid s i user b h at unclaimed positive =
    let covered = claim-IsCovered b user unclaimed positive (IsPooled-at s.books i b h.pooled at) in
    let whole = owed_all-le s.books i b at in
    let enough : claimable_by b user ≤ s.balance = omega (arith, h.covered, whole, covered.1) in
    rw (at, unclaimed) (ground arith)

claim_on-some :
    (s s' : State) (i user : ℕ) (accepts : Bool) (b : Book)
    → claim_on s (suc i) user accepts b ≡ some s'
    → ((holding_of user b.holdings).stake.claimed ≡ false)
      × (claimable_by b user ≢ 0)
      × (claimable_by b user ≤ s.balance)
      × (s'.books ≡ set_at s.books i (claimed_book b (holding_of user b.holdings)))
      × (s'.protocol_fees ≡ s.protocol_fees)
      × (s'.balance ≡ s.balance - claimable_by b user)
unfolding claim_on
claim_on-some s s' i user accepts b e = ground arith

pub claim-IsSolvent :
    (s s' : State) (id user : ℕ) (accepts : Bool)
    → IsSolvent s
    → claim s id user accepts ≡ some s'
    → IsSolvent s'
unfolding claim book_at
claim-IsSolvent s s' zero user accepts h e = cc
claim-IsSolvent s s' (suc i) user accepts h e =
    let (b, at, got) = with_book-some (get_elem? s.books i) (claim_on s (suc i) user accepts) e in
    let (unclaimed, positive, enough, books, fee, held) = claim_on-some s s' i user accepts b got in
    let covered = claim-IsCovered b user unclaimed positive (IsPooled-at s.books i b h.pooled at) in
    let b' = claimed_book b (holding_of user b.holdings) in
    let sum = owed_all-set_at s.books i b b' at in
    record {
      pooled = rw books (IsPooled-set_at s.books i b' h.pooled covered.0);
      covered = rw books (omega (arith, h.covered, sum, covered.1, fee, held, enough));
    }
