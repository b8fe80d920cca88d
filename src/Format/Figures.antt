-- ===== src/Format/Figures.antt =====
-- A figure as text, read back.
use ghoststake.Prelude.{
  ℕ, ◌+◌, ◌-◌, ◌*◌, ◌/◌, ◌%◌, ◌^◌, ◌≤◌, ◌<◌, ◌≡◌, ◌≢◌, refl, ◌∙◌, ap, true, some, [], ◌∷◌, ◌++◌,
  arith, ltb, ◌==◌, if◌then◌else◌, length, All, div-mul-le, lt-div_suc-mul, pow-pos,
}
use ghoststake.Prelude.Int.{pos}
use ghoststake.Text.{Text, to_string, pad_start, pad_end, big_int}
use mathlib.Core.List.{append-nil}
use native.Mathlib.Nat.{div-add-mod', mod-lt}
use ghoststake.Text.Decimal.{
  IsDigit, to_string-IsDigit, to_string-ne-nil, scan-to_string, scan-pad_start, pad_start-IsDigit,
  length-pad_start,
}
use ghoststake.Amount.{parse_amount, or_zero}
use ghoststake.Amount.RoundTrip.{
  big_int_of_digits, parse_of_parts, is_unfinished_of_dot, ne-nil_of_length, or_zero_of_ne_nil,
}
use ghoststake.Format.{Rounding, half_up, down, scaled, group_rest, group_digits, format_fixed}

-- A text without the separator `c`.
unfoldable pub ungroup : ℕ → Text → Text
ungroup c [] = []
ungroup c (d ∷ t) = let rest = ungroup c t in if d == c then rest else d ∷ rest

ungroup-group_rest : (c : ℕ) (t : Text) → All (λ d. d ≢ c) t → ungroup c (group_rest (c ∷ []) t) ≡ t
unfolding ungroup group_rest
ungroup-group_rest c [] h = refl
ungroup-group_rest c (d ∷ t) (p, h) = let rest = ungroup-group_rest c t h in ground arith

-- Taking out the separators of a grouped text gives the text, whatever the separator, when it is
-- no character of the text.
pub ungroup-group_digits :
    (c : ℕ) (t : Text) → All (λ d. d ≢ c) t → ungroup c (group_digits (c ∷ []) t) ≡ t
unfolding ungroup group_digits
ungroup-group_digits c [] h = refl
ungroup-group_digits c (d ∷ t) (p, h) = let rest = ungroup-group_rest c t h in ground arith

-- Rounding half up is within half a unit of the last digit shown, and rounding down is the floor.
pub scaled_close :
    (magnitude decimals fraction_digits : ℕ)
    → (let unit = 10 ^ decimals in
        let exact = magnitude * 10 ^ fraction_digits in
        (scaled magnitude decimals fraction_digits half_up * unit ≤ exact + unit / 2)
        × (exact + unit / 2 < scaled magnitude decimals fraction_digits half_up * unit + unit)
        × (scaled magnitude decimals fraction_digits down * unit ≤ exact)
        × (exact < scaled magnitude decimals fraction_digits down * unit + unit))
unfolding scaled
scaled_close magnitude decimals fraction_digits =
    let unit = 10 ^ decimals in
    let exact = magnitude * 10 ^ fraction_digits in
    let a = div-mul-le (exact + unit / 2) unit in
    let b = lt-div_suc-mul (exact + unit / 2) unit (pow-pos decimals) in
    let c = div-mul-le (exact + 0) unit in
    let d = lt-div_suc-mul (exact + 0) unit (pow-pos decimals) in ground arith

ungroup-append : (c : ℕ) (s t : Text) → ungroup c (s ++ t) ≡ ungroup c s ++ ungroup c t
unfolding ungroup
ungroup-append c [] t = refl
ungroup-append c (d ∷ s) t = let rest = ungroup-append c s t in ground arith

ungroup_id : (c : ℕ) (t : Text) → All (λ d. d ≢ c) t → ungroup c t ≡ t
unfolding ungroup
ungroup_id c [] h = refl
ungroup_id c (d ∷ t) (p, h) = let rest = ungroup_id c t h in ground arith

comma_free : (t : Text) → All IsDigit t → All (λ d. d ≢ b',') t
comma_free [] h = tt
comma_free (c ∷ t) (p, h) = (omega arith, comma_free t h)

pad_end_full : (t : Text) (d c : ℕ) → length t ≡ d → pad_end t d c ≡ t
unfolding pad_end
pad_end_full t d c e = let none_left : d - length t ≡ 0 = omega arith in rw none_left (append-nil t)

-- The fixed-point text of an unsigned value with at least one decimal, with commas and a point,
-- reads back without its commas as the rounded value.
pub parse_amount-format_fixed :
    (value decimals fraction_digits : ℕ) (rounding : Rounding)
    → 0 < fraction_digits
    → parse_amount
        (ungroup b','
          (format_fixed (b',' ∷ []) (b'.' ∷ []) (pos value) decimals fraction_digits rounding))
        fraction_digits
      ≡ some (pos (scaled value decimals fraction_digits rounding))
unfolding format_fixed
parse_amount-format_fixed value decimals fraction_digits rounding shown =
    let n = scaled value decimals fraction_digits rounding in
    let unit = 10 ^ fraction_digits in
    let whole = to_string (n / unit) in
    let part = pad_start (to_string (n % unit)) fraction_digits b'0' in
    let whole_digits = to_string-IsDigit (n / unit) in
    let part_digits = pad_start-IsDigit (n % unit) fraction_digits in
    let size =
      length-pad_start (n % unit) fraction_digits (mod-lt n (pow-pos fraction_digits)) shown in
    let part_ne = ne-nil_of_length part (rw size shown) in
    let plain : ungroup b',' (group_digits (b',' ∷ []) whole ++ (b'.' ∷ part))
        ≡ whole ++ (b'.' ∷ part) =
      ungroup-append b',' (group_digits (b',' ∷ []) whole) (b'.' ∷ part)
      ∙ ap (λ (t : Text). t ++ ungroup b',' (b'.' ∷ part))
          (ungroup-group_digits b',' whole (comma_free whole whole_digits))
      ∙ ap (λ (t : Text). whole ++ t)
          (ungroup_id b',' (b'.' ∷ part) (omega arith, comma_free part part_digits)) in
    let read : big_int (or_zero (pad_end part fraction_digits b'0')) ≡ some (pos (n % unit)) =
      rw (pad_end_full part fraction_digits b'0' size, or_zero_of_ne_nil part part_ne)
        (big_int_of_digits part (n % unit) part_ne part_digits
          (scan-pad_start (n % unit) fraction_digits)) in
    let whole_value : value + 0 ≡ value = omega arith in
    let more : ltb 0 fraction_digits ≡ true = ground arith in
    let form : format_fixed (b',' ∷ []) (b'.' ∷ []) (pos value) decimals fraction_digits rounding
        ≡ group_digits (b',' ∷ []) whole ++ (b'.' ∷ part) =
      rw (more, whole_value) refl in
    ap (λ (t : Text). parse_amount t fraction_digits) (ap (ungroup b',') form ∙ plain)
    ∙ (parse_of_parts whole part fraction_digits (n / unit) (n % unit)
          (is_unfinished_of_dot whole part (to_string-ne-nil (n / unit))) whole_digits part_digits
          (omega arith)
          (big_int_of_digits whole (n / unit) (to_string-ne-nil (n / unit)) whole_digits
            (scan-to_string (n / unit)))
          read
        ∙ ap (λ k. some (pos k)) (div-add-mod' n unit))
