-- ===== src/Prelude/Quotient.antt =====
-- What the money code needs of `/`: a quotient of bigints is the floor of the exact one.
use Prim.Native.Nat.{ℕ, ◌+◌, ◌*◌, ◌/◌, ◌^◌, ◌≤◌, ◌<◌}
use native.Mathlib.Nat.{
  le-div_iff_mul-le, div-lt_iff_lt-mul, div-mul-le_self, mul-le-mul, le_refl, one-le-pow,
}
use native.Mathlib.Omega.{arith}

pub div-mul-le : (a d : ℕ) → (a / d) * d ≤ a
div-mul-le a d = div-mul-le_self a d

pub lt-div_suc-mul : (a d : ℕ) → 0 < d → a < (a / d + 1) * d
lt-div_suc-mul a d h = (div-lt_iff_lt-mul h).0 (omega arith)

pub le-div_of_mul : (k a d : ℕ) → 0 < d → k * d ≤ a → k ≤ a / d
le-div_of_mul k a d h p = (le-div_iff_mul-le h).1 p

pub div-le_of_lt : (k a d : ℕ) → 0 < d → a < (k + 1) * d → a / d ≤ k
div-le_of_lt k a d h p = let q : a / d < k + 1 = (div-lt_iff_lt-mul h).1 p in omega arith

pub div_mono : (a b d : ℕ) → 0 < d → a ≤ b → a / d ≤ b / d
div_mono a b d h p = le-div_of_mul (a / d) b d h (omega (arith, div-mul-le a d))

pub mul_mono : (a b c : ℕ) → a ≤ b → a * c ≤ b * c
mul_mono a b c h = mul-le-mul h (le_refl c)

-- A token's unit is never zero.
pub pow-pos : (n : ℕ) → 0 < 10 ^ n
pow-pos n = one-le-pow n 10 (omega arith)
