-- ===== src/Amount/Problems.antt =====
-- What the field says about what was typed.
use ghoststake.Prelude.{
  ℕ, zero, suc, ◌+◌, ◌-◌, ◌*◌, ◌^◌, ◌≤◌, ◌<◌, ◌≡◌, ◌≢◌, refl, ◌↔◌, true, false, none, some, List,
  [], ◌∷◌, ◌++◌, arith, All, All-append, filter, Bool-cases, inl, inr, length, replicate,
}
use ghoststake.Prelude.Int.{pos}
use ghoststake.Text.{Text, trim, split, big_int, scan, pad_end, digit_value}
use ghoststake.Text.Decimal.{IsDigit}
use ghoststake.Text.Trim.{IsInk, trim_idem, trim_of_ink, split_whole, split-All}
use ghoststake.Amount.RoundTrip.{
  big_int_of_digits, parse_of_parts, parse_of_whole, split_of_parts, IsInk-of_digit, dotless,
}
use ghoststake.Amount.{
  parse_amount, amount_problem, is_unfinished, sanitise, is_amount_char, join_rest, rejoin,
  fraction_of, or_zero,
}

parse_amount-trim : (t : Text) (d : ℕ) → parse_amount (trim t) d ≡ parse_amount t d
unfolding parse_amount
parse_amount-trim t d = rw (trim_idem t)

parse_of_too_precise :
    (t : Text) (d : ℕ) → d < length (fraction_of (split b'.' (trim t))) → parse_amount t d ≡ none
unfolding parse_amount
parse_of_too_precise t d h = ground arith

-- The field is silent about a finished input exactly when the amount can be read.
pub amount_problem_iff :
    (input : Text) (decimals : ℕ)
    → is_unfinished (trim input) ≡ false
    → (amount_problem input decimals ≡ none) ↔ (parse_amount input decimals ≢ none)
unfolding amount_problem
amount_problem_iff input decimals typed =
    let same = parse_amount-trim input decimals in
    let exact = parse_of_too_precise input decimals in ground arith

-- Digits, with at most one point among them.
pub data IsTyped : Text → Type 0 where
  whole : (w : Text) → All IsDigit w → IsTyped w
  pointed : {t : Text} (w f : Text) → All IsDigit w → All IsDigit f → t ≡ w ++ b'.' ∷ f → IsTyped t

abbrev IsPlain : ℕ → Type 0
IsPlain c = (is_amount_char c ≡ true) × (c ≢ b'.')

digits_of_plain : (t : Text) → All IsPlain t → All IsDigit t
digits_of_plain [] h = tt
digits_of_plain (c ∷ t) (p, h) = (ground arith, digits_of_plain t h)

join_rest-IsDigit : (parts : List Text) → All (All IsPlain) parts → All IsDigit (join_rest parts)
unfolding join_rest
join_rest-IsDigit [] h = tt
join_rest-IsDigit (part ∷ parts) (p, h) =
    All-append IsDigit part (join_rest parts) (digits_of_plain part p) (join_rest-IsDigit parts h)

rejoin-IsTyped : (parts : List Text) → All (All IsPlain) parts → IsTyped (rejoin parts)
unfolding rejoin
rejoin-IsTyped [] h = whole [] tt
rejoin-IsTyped (w ∷ []) (p, h) = whole w (digits_of_plain w p)
rejoin-IsTyped (w ∷ f ∷ fs) (p, h) =
    pointed w (join_rest (f ∷ fs)) (digits_of_plain w p) (join_rest-IsDigit (f ∷ fs) h) refl

filter-All : (t : Text) → All (λ c. is_amount_char c ≡ true) (filter is_amount_char t)
filter-All [] = tt
filter-All (c ∷ t) = elim (Bool-cases (is_amount_char c)) [
  | inl e ↦ rw e (e, filter-All t)
  | inr e ↦ rw e (filter-All t)
]

-- Whatever is typed or pasted, the field keeps digits and at most one point.
pub sanitise-IsTyped : (raw : Text) → IsTyped (sanitise raw)
unfolding sanitise
sanitise-IsTyped raw =
    rejoin-IsTyped (split b'.' (filter is_amount_char raw))
      (split-All (λ c. is_amount_char c ≡ true) b'.' (filter is_amount_char raw) (filter-All raw))

scan_total : (t : Text) (n : ℕ) → All IsDigit t → (m : ℕ) × (scan 10 n t ≡ some m)
unfolding scan
scan_total [] n h = (n, refl)
scan_total (c ∷ t) n (p, h) =
    let (m, e) = scan_total t (n * 10 + digit_value c) h in (m, ground arith)

big_int_empty : big_int [] ≡ some (pos 0)
unfolding big_int trim
big_int_empty = refl

big_int_total : (t : Text) → All IsDigit t → (m : ℕ) × (big_int t ≡ some (pos m))
big_int_total [] h = (0, big_int_empty)
big_int_total (c ∷ t) h =
    let (m, e) = scan_total (c ∷ t) 0 h in (m, big_int_of_digits (c ∷ t) m (cc) h e)

or_zero-IsDigit : (t : Text) → All IsDigit t → All IsDigit (or_zero t)
or_zero-IsDigit [] h = (omega arith, tt)
or_zero-IsDigit (c ∷ t) h = h

zeros-IsDigit : (k : ℕ) → All IsDigit (replicate k b'0')
zeros-IsDigit zero = tt
zeros-IsDigit (suc k) = (omega arith, zeros-IsDigit k)

pad_end-IsDigit : (t : Text) (d : ℕ) → All IsDigit t → All IsDigit (pad_end t d b'0')
unfolding pad_end
pad_end-IsDigit t d h =
    All-append IsDigit t (replicate (d - length t) b'0') h (zeros-IsDigit (d - length t))

-- Read where the fraction fits, and refused where it does not.
abbrev pub IsRead : Text → ℕ → Type 0
IsRead t d =
    (length (fraction_of (split b'.' t)) ≤ d → (m : ℕ) × (parse_amount t d ≡ some (pos m)))
    × (d < length (fraction_of (split b'.' t)) → parse_amount t d ≡ none)

IsTyped-IsRead : (t : Text) (d : ℕ) → is_unfinished t ≡ false → IsTyped t → IsRead t d
IsTyped-IsRead t d typed (whole _ h) =
    let (n, read) = big_int_total t h in
    let none_after = split_whole b'.' t (dotless t h) in
    (
      (λ fits. (n * 10 ^ d, parse_of_whole t d n typed h read)),
      (λ long. let bad : d < 0 = rw none_after at long in absurd (omega arith)),
    )
IsTyped-IsRead t d typed (pointed w f hw hf e) =
    let parts = split_of_parts w f hw hf in
    let (n, read) = big_int_total w hw in
    let (m, read_fraction) =
      big_int_total (or_zero (pad_end f d b'0')) (or_zero-IsDigit _ (pad_end-IsDigit f d hf)) in
    let trimmed : trim (w ++ b'.' ∷ f) ≡ w ++ b'.' ∷ f =
      trim_of_ink (w ++ b'.' ∷ f)
        (All-append IsInk w (b'.' ∷ f) (IsInk-of_digit w hw) (refl, IsInk-of_digit f hf)) in
    rw e (
      (λ fits. (
        n * 10 ^ d + m,
        parse_of_parts w f d n m (rw e at typed) hw hf (rw parts at fits) read read_fraction,
      )),
      (λ long. parse_of_too_precise (w ++ b'.' ∷ f) d (rw trimmed long)),
    )

-- From the field, the only refusal is precision: a finished text with no more decimals than the
-- token is read as an amount that is not negative, and one with more is refused.
sanitise-IsRead :
    (raw : Text) (d : ℕ) → is_unfinished (sanitise raw) ≡ false → IsRead (sanitise raw) d
sanitise-IsRead raw d typed = IsTyped-IsRead (sanitise raw) d typed (sanitise-IsTyped raw)
