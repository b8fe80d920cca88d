-- ===== src/Text/Decimal.antt =====
-- Printing a number in decimal, and reading it back.
use native.Mathlib.Nat.{pow-suc}
use ghoststake.Prelude.{
  ℕ, zero, suc, ◌+◌, ◌-◌, ◌*◌, ◌/◌, ◌%◌, ◌^◌, ◌≤◌, ◌<◌, ◌≡◌, ◌≢◌, refl, some, [], ◌∷◌, ◌++◌, arith,
  length, All, All-append, length-append, replicate, ◌∙◌,
}
use ghoststake.Text.{Text, digits, to_string, scan, pad_start}

abbrev pub IsDigit : ℕ → Type 0
IsDigit c = (b'0' ≤ c) × (c ≤ b'9')

digits-IsDigit : (f n : ℕ) (out : Text) → All IsDigit out → All IsDigit (digits f n out)
unfolding digits
digits-IsDigit zero n out h = h
digits-IsDigit (suc f) n out h =
    ground (arith, digits-IsDigit f (n / 10) ((b'0' + n % 10) ∷ out) (omega arith, h))

pub to_string-IsDigit : (n : ℕ) → All IsDigit (to_string n)
unfolding to_string
to_string-IsDigit n = digits-IsDigit (suc n) n [] tt

scan_digit :
    (n c : ℕ) (out : Text) → IsDigit c → scan 10 n (c ∷ out) ≡ scan 10 (n * 10 + (c - b'0')) out
unfolding scan
scan_digit n c out h = ground arith

scan-digits : (f n : ℕ) (out : Text) → n < f → scan 10 0 (digits f n out) ≡ scan 10 n out
unfolding digits
scan-digits zero n out h = absurd (omega arith)
scan-digits (suc f) n out h = ground (
  arith,
  scan_digit 0 (b'0' + n % 10) out,
  scan_digit (n / 10) (b'0' + n % 10) out,
  scan-digits f (n / 10) ((b'0' + n % 10) ∷ out),
)

pub scan-to_string : (n : ℕ) → scan 10 0 (to_string n) ≡ some n
unfolding to_string scan
scan-to_string n = scan-digits (suc n) n [] (omega arith)

digits-ne-nil : (f n c : ℕ) (out : Text) → digits f n (c ∷ out) ≢ []
unfolding digits
digits-ne-nil zero n c out = cc
digits-ne-nil (suc f) n c out = ground (arith, digits-ne-nil f (n / 10) (b'0' + n % 10) (c ∷ out))

pub to_string-ne-nil : (n : ℕ) → to_string n ≢ []
unfolding to_string digits
to_string-ne-nil n = ground (arith, digits-ne-nil n (n / 10) (b'0' + n % 10) [])

-- A number below 10 ^ k has at most k digits, and at least one.
length-digits :
    (f n k : ℕ) (out : Text) → n < 10 ^ suc k → length (digits f n out) ≤ suc k + length out
unfolding digits
length-digits zero n k out h = omega arith
length-digits (suc f) n zero out h = ground arith
length-digits (suc f) n (suc k) out h =
    ground (arith, pow-suc 10 (suc k), length-digits f (n / 10) k ((b'0' + n % 10) ∷ out))

pub length-to_string : (n k : ℕ) → n < 10 ^ k → 0 < k → length (to_string n) ≤ k
unfolding to_string
length-to_string n zero h pos = absurd (omega arith)
length-to_string n (suc k) h pos = omega (arith, length-digits (suc n) n k [] h)

-- Leading zeros change nothing.
scan-zeros : (k : ℕ) (t : Text) → scan 10 0 (replicate k b'0' ++ t) ≡ scan 10 0 t
unfolding scan
scan-zeros zero t = refl
scan-zeros (suc k) t = ground (arith, scan-zeros k t)

pub scan-pad_start : (n w : ℕ) → scan 10 0 (pad_start (to_string n) w b'0') ≡ some n
unfolding pad_start
scan-pad_start n w = scan-zeros (w - length (to_string n)) (to_string n) ∙ scan-to_string n

All-replicate : (k : ℕ) → All IsDigit (replicate k b'0')
All-replicate zero = tt
All-replicate (suc k) = (omega arith, All-replicate k)

pub pad_start-IsDigit : (n w : ℕ) → All IsDigit (pad_start (to_string n) w b'0')
unfolding pad_start
pad_start-IsDigit n w =
    All-append IsDigit (replicate (w - length (to_string n)) b'0') (to_string n)
      (All-replicate (w - length (to_string n))) (to_string-IsDigit n)

length-replicate : (k c : ℕ) → length (replicate k c) ≡ k
length-replicate zero c = refl
length-replicate (suc k) c = omega (arith, length-replicate k c)

pub length-pad_start : (n w : ℕ) → n < 10 ^ w → 0 < w → length (pad_start (to_string n) w b'0') ≡ w
unfolding pad_start
length-pad_start n w h wide =
    let k = w - length (to_string n) in
    omega (
      arith,
      length-append (replicate k b'0') (to_string n),
      length-replicate k b'0',
      length-to_string n w h wide,
    )
