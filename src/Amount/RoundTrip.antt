-- ===== src/Amount/RoundTrip.antt =====
-- What the Max button writes is read back as the same amount.
use mathlib.Core.List.{reverse, reverse-reverse, reverse-append, reverse-cons}
use native.Mathlib.Nat.{sub-zero, div-add-mod', mod-lt}
use ghoststake.Prelude.{
  ℕ, zero, suc, ◌+◌, ◌-◌, ◌*◌, ◌/◌, ◌%◌, ◌^◌, ◌≤◌, ◌<◌, ◌≡◌, ◌≢◌, refl, sym, ◌∙◌, ap, false, some,
  [], ◌∷◌, ◌++◌, arith, ◌==◌, length, All, All-append, replicate, length-append, pow-pos,
  Bool-cases, inl, inr,
}
use ghoststake.Prelude.Int.{pos, ◌+ℤ◌, scale}
use ghoststake.Text.{Text, to_string, pad_start, pad_end, split, big_int, scan, literal}
use ghoststake.Text.Decimal.{
  IsDigit, to_string-IsDigit, scan-to_string, to_string-ne-nil, scan-pad_start, pad_start-IsDigit,
  length-pad_start,
}
use ghoststake.Text.Trim.{IsInk, trim_of_ink, split_whole, split_once}
use ghoststake.Amount.{
  parse_amount, to_decimal_string, drop_zeros, strip_zeros, is_unfinished, or_zero,
}

pub IsInk-of_digit : (t : Text) → All IsDigit t → All IsInk t
IsInk-of_digit [] h = tt
IsInk-of_digit (c ∷ t) (p, h) = (ground arith, IsInk-of_digit t h)

pub dotless : (t : Text) → All IsDigit t → All (λ c. c ≢ b'.') t
dotless [] h = tt
dotless (c ∷ t) (p, h) = (omega arith, dotless t h)

-- `BigInt` of one digit or more is the number that they spell.
pub big_int_of_digits :
    (t : Text) (n : ℕ) → t ≢ [] → All IsDigit t → scan 10 0 t ≡ some n → big_int t ≡ some (pos n)
unfolding big_int literal
big_int_of_digits [] n ne h e = absurd (ne refl)
big_int_of_digits (c ∷ []) n ne h e =
    rw (trim_of_ink (c ∷ []) (IsInk-of_digit (c ∷ []) h), big_int) (ground arith)
big_int_of_digits (c ∷ d ∷ t) n ne h e =
    rw (trim_of_ink (c ∷ d ∷ t) (IsInk-of_digit (c ∷ d ∷ t) h), big_int) (ground arith)

-- A text without its last zeros, padded back to its length.
abbrev zeros : ℕ → Text
zeros k = replicate k b'0'

drop_zeros_split : (t : Text) → (k : ℕ) × (zeros k ++ drop_zeros t ≡ t)
unfolding drop_zeros
drop_zeros_split [] = (0, refl)
drop_zeros_split (c ∷ t) = elim (Bool-cases (c == b'0')) [
  | inl z ↦
      let (k, e) = drop_zeros_split t in
      let c-zero : c ≡ b'0' = ground arith in (suc k, rw z (rw c-zero (ap (◌∷◌ b'0') e)))
  | inr nz ↦ (0, rw nz)
]

zeros_snoc : (k : ℕ) → ◌++◌ {A = ℕ} (zeros k) (b'0' ∷ []) ≡ b'0' ∷ zeros k
zeros_snoc zero = refl
zeros_snoc (suc k) = ap (λ (t : Text). b'0' ∷ t) (zeros_snoc k)

reverse-zeros : (k : ℕ) → reverse (zeros k) ≡ zeros k
reverse-zeros zero = refl
reverse-zeros (suc k) =
    reverse-cons b'0' (zeros k)
    ∙ ap (λ (t : Text). t ++ (b'0' ∷ [])) (reverse-zeros k)
    ∙ zeros_snoc k

strip_zeros_split : (t : Text) → (k : ℕ) × (strip_zeros t ++ zeros k ≡ t)
unfolding strip_zeros
strip_zeros_split t =
    let (k, e) = drop_zeros_split (reverse t) in
    let kept = drop_zeros (reverse t) in
    (
      k,
      ap (λ (z : Text). reverse kept ++ z) (sym (reverse-zeros k))
          ∙ sym (reverse-append (zeros k) kept)
          ∙ ap reverse e
          ∙ reverse-reverse t,
    )

All-prefix : (s t : Text) → All IsDigit (s ++ t) → All IsDigit s
All-prefix [] t h = tt
All-prefix (c ∷ s) t (p, h) = (p, All-prefix s t h)

length-zeros : (k : ℕ) → length (zeros k) ≡ k
length-zeros zero = refl
length-zeros (suc k) = ap suc (length-zeros k)

-- Padding a stripped text back gives the text.
pad_end-strip_zeros :
    (t : Text) (d : ℕ)
    → length t ≡ d
    → (pad_end (strip_zeros t) d b'0' ≡ t) × (length (strip_zeros t) ≤ d)
unfolding pad_end
pad_end-strip_zeros t d e =
    let (k, back) = strip_zeros_split t in
    let total = length-append (strip_zeros t) (zeros k) in
    let cut : d - length (strip_zeros t) ≡ k =
      omega (arith, ap length back, total, length-zeros k) in
    (rw cut back, omega (arith, ap length back, total))

pub is_unfinished_of_dot : (w f : Text) → w ≢ [] → is_unfinished (w ++ b'.' ∷ f) ≡ false
is_unfinished_of_dot [] f ne = absurd (ne refl)
is_unfinished_of_dot (c ∷ []) f ne = refl
is_unfinished_of_dot (c ∷ d ∷ w) f ne = refl

is_unfinished_of_digits : (w : Text) → w ≢ [] → All IsDigit w → is_unfinished w ≡ false
is_unfinished_of_digits [] ne h = absurd (ne refl)
is_unfinished_of_digits (c ∷ []) ne h = ground arith
is_unfinished_of_digits (c ∷ d ∷ w) ne h = refl

pub ne-nil_of_length : (t : Text) → 0 < length t → t ≢ []
ne-nil_of_length [] h = absurd (omega arith)
ne-nil_of_length (c ∷ t) h = cc

pub split_of_parts :
    (w f : Text) → All IsDigit w → All IsDigit f → split b'.' (w ++ b'.' ∷ f) ≡ w ∷ f ∷ []
split_of_parts w f hw hf =
    split_once b'.' w f (dotless w hw) ∙ ap (λ ps. w ∷ ps) (split_whole b'.' f (dotless f hf))

-- Digits, a point and at most `d` digits, where the fraction reads as `m` when padded to `d`.
pub parse_of_parts :
    (w f : Text) (d n m : ℕ)
    → is_unfinished (w ++ b'.' ∷ f) ≡ false
    → All IsDigit w
    → All IsDigit f
    → length f ≤ d
    → big_int w ≡ some (pos n)
    → big_int (or_zero (pad_end f d b'0')) ≡ some (pos m)
    → parse_amount (w ++ b'.' ∷ f) d ≡ some (pos (n * 10 ^ d + m))
unfolding parse_amount ◌+ℤ◌ scale
parse_of_parts w f d n m typed hw hf le whole fraction =
    let ink : All IsInk (w ++ b'.' ∷ f) =
      All-append IsInk w (b'.' ∷ f) (IsInk-of_digit w hw) (refl, IsInk-of_digit f hf) in
    let parts : split b'.' (w ++ b'.' ∷ f) ≡ w ∷ f ∷ [] = split_of_parts w f hw hf in
    rw (trim_of_ink (w ++ b'.' ∷ f) ink, typed, parts) (ground (arith, whole, fraction))

scan-zeros : (k : ℕ) → scan 10 0 (zeros k) ≡ some 0
unfolding scan
scan-zeros zero = refl
scan-zeros (suc k) = ground (arith, scan-zeros k)

All-zeros : (k : ℕ) → All IsDigit (zeros k)
All-zeros zero = tt
All-zeros (suc k) = (omega arith, All-zeros k)

big_int_of_zeros : (d : ℕ) → big_int (or_zero (zeros (d - 0))) ≡ some (pos 0)
big_int_of_zeros d = rw sub-zero (go d)
  where
    go : (k : ℕ) → big_int (or_zero (zeros k)) ≡ some (pos 0)
    go zero = big_int_of_digits (b'0' ∷ []) 0 (cc) (omega arith, tt) (scan-zeros 1)
    go (suc k) = big_int_of_digits (zeros (suc k)) 0 (cc) (All-zeros (suc k)) (scan-zeros (suc k))

-- No point: the fraction is zero.
pub parse_of_whole :
    (w : Text) (d n : ℕ)
    → is_unfinished w ≡ false
    → All IsDigit w
    → big_int w ≡ some (pos n)
    → parse_amount w d ≡ some (pos (n * 10 ^ d))
unfolding parse_amount ◌+ℤ◌ scale pad_end
parse_of_whole w d n typed hw whole =
    let parts = split_whole b'.' w (dotless w hw) in
    let fraction = big_int_of_zeros d in
    rw (trim_of_ink w (IsInk-of_digit w hw), typed, parts) (ground (arith, whole, fraction))

pub or_zero_of_ne_nil : (t : Text) → t ≢ [] → or_zero t ≡ t
or_zero_of_ne_nil [] ne = absurd (ne refl)
or_zero_of_ne_nil (c ∷ t) ne = refl

-- The fraction as it is written, read back.
written_fraction :
    (m d : ℕ)
    → m < 10 ^ d
    → 0 < m
    → let f = strip_zeros (pad_start (to_string m) d b'0') in
      All IsDigit f × (length f ≤ d) × (big_int (or_zero (pad_end f d b'0')) ≡ some (pos m))
written_fraction m d small nonzero =
    let padded = pad_start (to_string m) d b'0' in
    let wide : 0 < d = wide_of m d small nonzero in
    let size = length-pad_start m d small wide in
    let (back, le) = pad_end-strip_zeros padded d size in
    let (k, whole) = strip_zeros_split padded in
    let all = pad_start-IsDigit m d in
    let some_digit : padded ≢ [] = ne-nil_of_length padded (rw size wide) in
    (
      All-prefix (strip_zeros padded) (zeros k) (rw whole all),
      le,
      rw (back, or_zero_of_ne_nil padded some_digit)
          (big_int_of_digits padded m some_digit all (scan-pad_start m d)),
    )
  where
    wide_of : (m d : ℕ) → m < 10 ^ d → 0 < m → 0 < d
    wide_of m zero small nonzero = absurd (omega arith)
    wide_of m (suc d) small nonzero = omega arith

-- The Max button loses and adds nothing: the text that it writes is read back as the same amount,
-- at any number of decimals.
pub parse_amount-to_decimal_string :
    (value decimals : ℕ)
    → parse_amount (to_decimal_string value decimals) decimals ≡ some (pos value)
unfolding to_decimal_string
parse_amount-to_decimal_string value decimals =
    let unit = 10 ^ decimals in
    let whole = to_string (value / unit) in
    let whole_ne = to_string-ne-nil (value / unit) in
    let whole_digits = to_string-IsDigit (value / unit) in
    let whole_read =
      big_int_of_digits whole (value / unit) whole_ne whole_digits
        (scan-to_string (value / unit)) in
    let parts : value / unit * unit + value % unit ≡ value = div-add-mod' value unit in
    elim (Bool-cases (value % unit == 0)) [
      | inl z ↦
          let exact : value / unit * unit ≡ value = ground arith in
          rw z (
            parse_of_whole whole decimals (value / unit)
              (is_unfinished_of_digits whole whole_ne whole_digits) whole_digits whole_read
            ∙ ap (λ n. some (pos n)) exact)
      | inr nz ↦
          let (digits, short, read) =
            written_fraction (value % unit) decimals (mod-lt value (pow-pos decimals))
              (ground arith) in
          rw nz (
            parse_of_parts whole _ decimals (value / unit) (value % unit)
              (is_unfinished_of_dot whole _ whole_ne) whole_digits digits short whole_read read
            ∙ ap (λ n. some (pos n)) parts)
    ]
