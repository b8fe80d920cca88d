-- ===== src/Text/Trim.antt =====
-- `trim` leaves a text without blanks alone, and `split` leaves one without the separator whole.
use mathlib.Core.List.{reverse, reverse-reverse, reverse-append, reverse-cons}
use ghoststake.Prelude.{
  ℕ, ◌≡◌, ◌≢◌, refl, sym, ap, ◌∙◌, false, Bool-cases, inl, inr, [], ◌∷◌, ◌++◌, arith, All,
  All-append, ◌==◌, List,
}
use ghoststake.Text.{Text, is_space, drop_spaces, trim, split, cons_head}

abbrev pub IsInk : ℕ → Type 0
IsInk c = is_space c ≡ false

drop_spaces_of_ink : (t : Text) → All IsInk t → drop_spaces t ≡ t
unfolding drop_spaces
drop_spaces_of_ink [] h = refl
drop_spaces_of_ink (c ∷ t) (h, _) = rw h

All-reverse {ℓ} : (P : ℕ → Type ℓ) (t : Text) → All P t → All P (reverse t)
All-reverse P [] h = tt
All-reverse P (c ∷ t) (p, h) =
    rw (reverse-cons) (All-append P (reverse t) (c ∷ []) (All-reverse P t h) (p, tt))

pub trim_of_ink : (t : Text) → All IsInk t → trim t ≡ t
unfolding trim
trim_of_ink t h =
    rw (drop_spaces_of_ink t h, drop_spaces_of_ink (reverse t) (All-reverse IsInk t h))
      (reverse-reverse t)

-- One space at the end is taken off.
pub trim_of_padded :
    (c : ℕ) (t : Text)
    → is_space c ≡ false
    → All IsInk (c ∷ t)
    → trim ((c ∷ t) ++ (b' ' ∷ [])) ≡ c ∷ t
unfolding trim drop_spaces
trim_of_padded c t ink h =
    let kept = drop_spaces_of_ink (reverse (c ∷ t)) (All-reverse IsInk (c ∷ t) h) in
    rw (ink, reverse-append (c ∷ t) (b' ' ∷ []), kept) (reverse-reverse (c ∷ t))

pub split_whole : (sep : ℕ) (t : Text) → All (λ c. c ≢ sep) t → split sep t ≡ t ∷ []
unfolding split
split_whole sep [] h = refl
split_whole sep (c ∷ t) (p, h) = ground (arith, split_whole sep t h)

pub split_once :
    (sep : ℕ) (s t : Text) → All (λ c. c ≢ sep) s → split sep (s ++ sep ∷ t) ≡ s ∷ split sep t
unfolding split
split_once sep [] t h = ground arith
split_once sep (c ∷ s) t (p, h) = ground (arith, split_once sep s t h)

-- What is left starts with no blank.
abbrev StartsInk : Text → Type 0
StartsInk [] = Unit
StartsInk (c ∷ t) = IsInk c

drop_spaces-StartsInk : (t : Text) → StartsInk (drop_spaces t)
unfolding drop_spaces
drop_spaces-StartsInk [] = tt
drop_spaces-StartsInk (c ∷ t) = elim (Bool-cases (is_space c)) [
  | inl e ↦ rw e (drop_spaces-StartsInk t)
  | inr e ↦ rw e e
]

drop_spaces_of_StartsInk : (t : Text) → StartsInk t → drop_spaces t ≡ t
unfolding drop_spaces
drop_spaces_of_StartsInk [] h = refl
drop_spaces_of_StartsInk (c ∷ t) h = rw h

drop_spaces-suffix : (t : Text) → (z : Text) × (z ++ drop_spaces t ≡ t)
unfolding drop_spaces
drop_spaces-suffix [] = ([], refl)
drop_spaces-suffix (c ∷ t) = elim (Bool-cases (is_space c)) [
  | inl e ↦ let (z, p) = drop_spaces-suffix t in (c ∷ z, rw e (ap (λ (u : Text). c ∷ u) p))
  | inr e ↦ ([], rw e)
]

StartsInk-prefix : (v z : Text) → StartsInk (v ++ z) → StartsInk v
StartsInk-prefix [] z h = tt
StartsInk-prefix (c ∷ v) z h = h

-- Trimming twice is trimming once.
pub trim_idem : (t : Text) → trim (trim t) ≡ trim t
unfolding trim
trim_idem t =
    let u = drop_spaces t in
    let r = drop_spaces (reverse u) in
    let (z, p) = drop_spaces-suffix (reverse u) in
    let whole : reverse r ++ reverse z ≡ u =
      sym (reverse-append z r) ∙ ap reverse p ∙ reverse-reverse u in
    let starts : StartsInk (reverse r) =
      StartsInk-prefix (reverse r) (reverse z) (rw whole (drop_spaces-StartsInk t)) in
    rw (
      drop_spaces_of_StartsInk (reverse r) starts,
      reverse-reverse r,
      drop_spaces_of_StartsInk r (drop_spaces-StartsInk (reverse u)),
    )

module _ {ℓ} (P : ℕ → Type ℓ) (sep : ℕ) where
  abbrev Clean : ℕ → Type ℓ
  Clean c = P c × (c ≢ sep)

  cons_head-All :
      (c : ℕ) (parts : List Text)
      → Clean c
      → All (All Clean) parts
      → All (All Clean) (cons_head c parts)
  unfolding cons_head
  cons_head-All c [] p h = ((p, tt), tt)
  cons_head-All c (part ∷ parts) p (q, h) = ((p, q), h)

  -- No part holds the separator, and each keeps what holds of every character.
  pub split-All : (t : Text) → All P t → All (All Clean) (split sep t)
  unfolding split
  split-All [] h = (tt, tt)
  split-All (c ∷ t) (p, h) = elim (Bool-cases (c == sep)) [
    | inl e ↦ rw e (tt, split-All t h)
    | inr e ↦ rw e (cons_head-All c (split sep t) (p, ground arith) (split-All t h))
  ]
