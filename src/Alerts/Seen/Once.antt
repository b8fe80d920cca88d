-- ===== src/Alerts/Seen/Once.antt =====
-- What has been announced is not announced again.
use ghoststake.Prelude.{
  ◌-◌, ◌≤◌, ◌≡◌, refl, Bool, true, false, not, some, List, [], ◌∷◌, ◌++◌, any, filter, arith, All,
  length, if◌then◌else◌, Bool-cases, inl, inr, ◌⊎◌,
}
use ghoststake.Text.{Text}
use ghoststake.Nav.{same, same_refl}
use ghoststake.Alerts.{Alert, unseen}
use ghoststake.Alerts.Seen.{
  Storage, has, add, add_all, last_50, seen_key, read_seen, announced, effect,
}

any-append_left : (p : Text → Bool) (xs ys : List Text) → any p xs ≡ true → any p (xs ++ ys) ≡ true
any-append_left p [] ys h = cc
any-append_left p (x ∷ xs) ys h = let rest = any-append_left p xs ys in ground arith

any-append_last :
    (p : Text → Bool) (xs : List Text) (y : Text) → p y ≡ true → any p (xs ++ y ∷ []) ≡ true
any-append_last p [] y h = ground arith
any-append_last p (x ∷ xs) y h = let rest = any-append_last p xs y h in ground arith

has-add : (seen : List Text) (id x : Text) → has seen x ≡ true → has (add seen id) x ≡ true
unfolding add
has-add seen id x h = elim (Bool-cases (has seen id)) [
  | inl there ↦ rw there h
  | inr new ↦ rw new (any-append_left (same x) seen (id ∷ []) h)
]

has-add_self : (seen : List Text) (id : Text) → has (add seen id) id ≡ true
unfolding add
has-add_self seen id = elim (Bool-cases (has seen id)) [
  | inl there ↦ rw there there
  | inr new ↦ rw new (any-append_last (same id) seen id (same_refl id))
]

has-add_all :
    (seen : List Text) (ls : List Alert) (x : Text)
    → has seen x ≡ true
    → has (add_all seen ls) x ≡ true
unfolding add_all
has-add_all seen [] x h = h
has-add_all seen (a ∷ ls) x h = has-add_all (add seen a.id) ls x (has-add seen a.id x h)

-- Every alert that is added is in the set.
add_all-Has : (seen : List Text) (ls : List Alert) → All (λ a. has (add_all seen ls) a.id ≡ true) ls
unfolding add_all
add_all-Has seen [] = tt
add_all-Has seen (a ∷ ls) =
    (has-add_all (add seen a.id) ls a.id (has-add_self seen a.id), add_all-Has (add seen a.id) ls)

All-if :
    (P : Alert → Type 0) (b : Bool) (a : Alert) (ls : List Alert)
    → All P (if b then a ∷ ls else ls)
    → (P a ⊎ (b ≡ false)) × All P ls
All-if P true a ls (p, h) = (inl p, h)
All-if P false a ls h = (inr refl, h)

All-of_filter :
    (P : Alert → Type 0) (q : Alert → Bool) (ls : List Alert)
    → All P (filter q ls)
    → ((a : Alert) → q a ≡ false → P a)
    → All P ls
All-of_filter P q [] h k = tt
All-of_filter P q (a ∷ ls) h k =
    let (here, rest) = All-if P (q a) a (filter q ls) h in
    (elim here [ inl p ↦ p | inr out ↦ k a out ], All-of_filter P q ls rest k)

unseen-none :
    (ls : List Alert) (seen : Text → Bool) → All (λ a. seen a.id ≡ true) ls → unseen ls seen ≡ []
unfolding unseen
unseen-none [] seen h = refl
unseen-none (a ∷ ls) seen (e, h) = let rest = unseen-none ls seen h in rw e rest

-- After the fresh alerts have been added, none is fresh.
unseen-add_all :
    (ls : List Alert) (seen : List Text)
    → unseen ls (has (add_all seen (unseen ls (has seen)))) ≡ []
unfolding unseen
unseen-add_all ls seen =
    let fresh = unseen ls (has seen) in
    unseen-none ls (has (add_all seen fresh)) (
      All-of_filter (λ a. has (add_all seen fresh) a.id ≡ true) (λ a. not (has seen a.id)) ls
        (add_all-Has seen fresh) (λ a e. has-add_all seen fresh a.id (ground arith)))

last_50-short : (ids : List Text) → length ids ≤ 50 → last_50 ids ≡ ids
last_50-short ids h = let e : length ids - 50 ≡ 0 = omega arith in rw e refl

-- What is read back after a run, while it is no more than fifty ids.
read_after :
    (storage : Storage) (key : Text) (fresh : List Alert)
    → length (add_all (read_seen storage key) fresh) ≤ 50
    → read_seen (announced true storage key (read_seen storage key) fresh).1 key
      ≡ add_all (read_seen storage key) fresh
unfolding add_all
read_after storage key [] h = refl
read_after storage key (a ∷ fresh) h = rw (same_refl key) (last_50-short _ h)

-- Where storage works and no more than fifty ids are kept, a second run of the effect on the same
-- alerts announces nothing.
effect_once :
    (address : Text) (alerts : List Alert) (storage : Storage)
    → let seen = read_seen storage (seen_key address) in
      length (add_all seen (unseen alerts (has seen))) ≤ 50
      → (effect true (some address) alerts (effect true (some address) alerts storage).1).0 ≡ []
unfolding effect
effect_once address alerts storage h =
    let key = seen_key address in
    let seen = read_seen storage key in
    rw (read_after storage key (unseen alerts (has seen)) h, unseen-add_all alerts seen) refl
