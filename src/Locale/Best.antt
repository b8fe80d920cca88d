-- ===== src/Locale/Best.antt =====
-- The locale that a header gets is the one it wants most, among those that there are.
use mathlib.Core.List.{Memᴰ}
use ghoststake.Prelude.{
  ℕ, ◌≡◌, ◌≢◌, ◌≤◌, refl, Bool, true, false, Option, none, some, List, [], ◌∷◌, arith, All, ltb,
  Bool-cases, inl, inr, ◌⊎◌, if◌then◌else◌,
}
use ghoststake.Text.{Text}
use ghoststake.Locale.{
  Locale, Wanted, serve, or_next, first_served, insert_wanted, sort_wanted, wanted, negotiate,
}

-- No tag that there is a locale for is wanted more than `q`.
abbrev pub IsMost : ℕ → List Wanted → Type 0
IsMost q ws = All (λ v. serve v.tag ≢ none → v.q ≤ q) ws

abbrev IsDescending : List Wanted → Type 0
IsDescending [] = Unit
IsDescending (w ∷ ws) = All (λ v. v.q ≤ w.q) ws × IsDescending ws

All-imp {ℓ κ κ'} :
    {A : Type ℓ} (P : A → Type κ) (Q : A → Type κ') (xs : List A)
    → ((a : A) → P a → Q a)
    → All P xs
    → All Q xs
All-imp P Q [] h k = tt
All-imp P Q (x ∷ xs) h (p, k) = (h x p, All-imp P Q xs h k)

All-insert {κ} :
    (P : Wanted → Type κ) (w : Wanted) (ws : List Wanted)
    → P w
    → All P ws
    → All P (insert_wanted w ws)
unfolding insert_wanted
All-insert P w [] p h = (p, tt)
All-insert P w (x ∷ xs) p (q, h) = elim (Bool-cases (ltb w.q x.q)) [
  | inl lt ↦ rw lt (q, All-insert P w xs p h)
  | inr ge ↦ rw ge (p, (q, h))
]

All-if {κ} :
    (P : Wanted → Type κ) (b : Bool) (xs ys : List Wanted)
    → All P (if b then xs else ys)
    → All P xs ⊎ All P ys
All-if P true xs ys h = inl h
All-if P false xs ys h = inr h

All-of_insert {κ} :
    (P : Wanted → Type κ) (w : Wanted) (ws : List Wanted)
    → All P (insert_wanted w ws)
    → P w × All P ws
unfolding insert_wanted
All-of_insert P w [] h = h
All-of_insert P w (x ∷ xs) h =
    elim (All-if P (ltb w.q x.q) (x ∷ insert_wanted w xs) (w ∷ x ∷ xs) h) [
      | inl behind ↦ let back = All-of_insert P w xs behind.1 in (back.0, (behind.0, back.1))
      | inr ahead ↦ ahead
    ]

insert_wanted-IsDescending :
    (w : Wanted) (ws : List Wanted) → IsDescending ws → IsDescending (insert_wanted w ws)
unfolding insert_wanted
insert_wanted-IsDescending w [] h = (tt, tt)
insert_wanted-IsDescending w (x ∷ xs) (below, h) = elim (Bool-cases (ltb w.q x.q)) [
  | inl lt ↦
      let le : w.q ≤ x.q = ground arith in
      rw lt (All-insert (λ v. v.q ≤ x.q) w xs le below, insert_wanted-IsDescending w xs h)
  | inr ge ↦
      let le : x.q ≤ w.q = ground arith in
      rw ge (
        (le, All-imp (λ v. v.q ≤ x.q) (λ v. v.q ≤ w.q) xs (λ v p. omega (arith, p, le)) below),
        (below, h),
      )
]

sort_wanted-IsDescending : (ws : List Wanted) → IsDescending (sort_wanted ws)
unfolding sort_wanted
sort_wanted-IsDescending [] = tt
sort_wanted-IsDescending (w ∷ ws) =
    insert_wanted-IsDescending w (sort_wanted ws) (sort_wanted-IsDescending ws)

All-of_sort {κ} : (P : Wanted → Type κ) (ws : List Wanted) → All P (sort_wanted ws) → All P ws
unfolding sort_wanted
All-of_sort P [] h = h
All-of_sort P (w ∷ ws) h =
    let back = All-of_insert P w (sort_wanted ws) h in (back.0, All-of_sort P ws back.1)

All-sort {κ} : (P : Wanted → Type κ) (ws : List Wanted) → All P ws → All P (sort_wanted ws)
unfolding sort_wanted
All-sort P [] h = h
All-sort P (w ∷ ws) (p, h) = All-insert P w (sort_wanted ws) p (All-sort P ws h)

or_next-some :
    (o rest : Option Locale) (l : Locale)
    → or_next o rest ≡ some l
    → (o ≡ some l) ⊎ ((o ≡ none) × (rest ≡ some l))
or_next-some none rest l e = inr (refl, e)
or_next-some (some k) rest l e = inl e

-- The first tag that there is a locale for, in an order that descends.
first_served_best {κ} :
    (P : Wanted → Type κ) (ws : List Wanted) (l : Locale)
    → IsDescending ws
    → All P ws
    → first_served ws ≡ some l
    → (w : Wanted) × (serve w.tag ≡ some l) × P w × IsMost w.q ws
unfolding first_served
first_served_best P [] l d h e = cc
first_served_best P (w ∷ ws) l (below, d) (p, h) e =
    elim (or_next-some (serve w.tag) (first_served ws) l e) [
      | inl served ↦ (
        w,
        served,
        p,
        (
          λ _. omega arith,
          All-imp (λ v. v.q ≤ w.q) (λ v. serve v.tag ≢ none → v.q ≤ w.q) ws (λ v q _. q) below,
        ),
      )
      | inr (skipped, later) ↦
          let (v, got, at, most) = first_served_best P ws l d h later in
          (v, got, at, (λ served. absurd (served skipped), most))
    ]

All-self : (ws : List Wanted) → All (λ v. Memᴰ v ws) ws
All-self [] = tt
All-self (w ∷ ws) = (
  Memᴰ.head refl,
  All-imp (λ v. Memᴰ v ws) (λ v. Memᴰ v (w ∷ ws)) ws (λ v m. Memᴰ.tail m) (All-self ws),
)

-- A header that gets a locale names a tag of it with a quality above zero, and no tag that there is
-- a locale for has a higher one.
negotiate_best :
    (quality : Text → ℕ) (one : ℕ) (header : Text) (l : Locale)
    → negotiate quality one (some header) ≡ some l
    → (w : Wanted) × (serve w.tag ≡ some l)
      × Memᴰ w (wanted quality one header)
      × IsMost w.q (wanted quality one header)
unfolding negotiate
negotiate_best quality one [] l e = cc
negotiate_best quality one (c ∷ t) l e =
    let ws = wanted quality one (c ∷ t) in
    let (w, served, at, most) =
      first_served_best (λ v. Memᴰ v ws) (sort_wanted ws) l (sort_wanted-IsDescending ws)
        (All-sort (λ v. Memᴰ v ws) ws (All-self ws)) e in
    (w, served, at, All-of_sort (λ v. serve v.tag ≢ none → v.q ≤ w.q) ws most)
