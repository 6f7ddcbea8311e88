-- ===== src/Prelude/Results.antt =====
-- A call that may return an error, whose text is what the callers read of it.
use Prim.Native.String.{String}
use mathlib.Core.Path.{◌≡◌, refl}

pub data Result {ℓ} (A : Type ℓ) : Type ℓ where
  ok : A → Result A
  err : String → Result A

infixl 5 ◌>>=◌
abbrev pub ◌>>=◌ {ℓ κ} : {A : Type ℓ} {B : Type κ} → Result A → (A → Result B) → Result B
ok a >>= f = f a
err e >>= f = err e

-- A result that holds of the value that an operation leaves, if it does not fail.
abbrev pub Leaves : {A : Type 0} → (A → Type 0) → Result A → Type 0
Leaves P (ok a) = P a
Leaves P (err e) = Unit

-- What holds of the rest, for the value that the first call returned, holds of both.
pub bind-Leaves :
    {A B : Type 0} (P : B → Type 0) (r : Result A) (f : A → Result B)
    → ((a : A) → r ≡ ok a → Leaves P (f a))
    → Leaves P (r >>= f)
bind-Leaves P (ok a) f h = h a refl
bind-Leaves P (err e) f h = tt

pub Leaves-ok :
    {A : Type 0} (P : A → Type 0) (r : Result A) → ((a : A) → r ≡ ok a → P a) → Leaves P r
Leaves-ok P (ok a) h = h a refl
Leaves-ok P (err e) h = tt
