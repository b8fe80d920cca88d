-- ===== src/Prelude/Options.antt =====
-- What holds of a result when there is one, through the guards of a function that may revert.
use mathlib.Core.Path.{◌≡◌, refl, subst}
use mathlib.Core.Bool.{Bool, true, false}
use mathlib.Core.Option.{Option, none, some}
use ghoststake.Prelude.Tests.{if◌then◌else◌}

abbrev pub OnSome {ℓ κ} : {A : Type ℓ} → (A → Type κ) → Option A → Type κ
OnSome P none = Unit
OnSome P (some a) = P a

module _ {ℓ κ} {A : Type ℓ} (P : A → Type κ) where
  pub OnSome-guard :
      (b : Bool) (x : Option A) → (b ≡ false → OnSome P x) → OnSome P (if b then none else x)
  OnSome-guard true x h = tt
  OnSome-guard false x h = h refl

  pub if-holds :
      (b : Bool) (x y : A) → (b ≡ true → P x) → (b ≡ false → P y) → P (if b then x else y)
  if-holds true x y h k = h refl
  if-holds false x y h k = k refl

  pub OnSome-eq : (o : Option A) (a : A) → OnSome P o → o ≡ some a → P a
  OnSome-eq o a h e = subst (OnSome P) e h

-- `x` has a result.
abbrev pub Returns {ℓ} : {A : Type ℓ} → Option A → Type ℓ
Returns {A} x = (a : A) × (x ≡ some a)

-- A guard that does not hold lets a result through.
pub guard-Returns {ℓ} :
    {A : Type ℓ} (b : Bool) (x : Option A) → b ≡ false → Returns x → Returns (if b then none else x)
guard-Returns true x h r = cc
guard-Returns false x h r = r

-- A result came past the guard.
pub guard-eq {ℓ} :
    {A : Type ℓ} (b : Bool) (x : Option A) {a : A} → (if b then none else x) ≡ some a → x ≡ some a
guard-eq true x h = cc
guard-eq false x h = h

pub guard-false {ℓ} :
    {A : Type ℓ} (b : Bool) (x : Option A) {a : A} → (if b then none else x) ≡ some a → b ≡ false
guard-false true x h = cc
guard-false false x h = refl
