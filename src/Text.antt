-- ===== src/Text.antt =====
-- The texts that fmt and xerrors build: decimal numbers and a wrapped error.
use Prim.Native.String.{String, ◌++◌}
use go_fil_markets.Prelude.{
  ℕ, zero, suc, ◌/◌, ◌%◌, ◌==◌, ltb, if◌then◌else◌, Result, ok, err, ◌>>=◌, Leaves, ◌≡◌, refl,
}
use go_fil_markets.Prelude.Int.{ℤ, pos, negsuc}

abbrev digit : ℕ → String
digit n =
    if n == 0
    then "0"
    else if n == 1
    then "1"
    else if n == 2
    then "2"
    else if n == 3
    then "3"
    else if n == 4
    then "4"
    else if n == 5
    then "5"
    else if n == 6
    then "6"
    else if n == 7
    then "7"
    else if n == 8
    then "8"
    else "9"

decimal_digits : ℕ → ℕ → String
decimal_digits zero n = ""
decimal_digits (suc fuel) n =
    let rest = decimal_digits fuel (n / 10) in if ltb n 10 then digit n else rest ++ digit (n % 10)

-- `%d` of a number, `%s` of a token amount.
unfoldable pub decimal : ℕ → String
unfolding decimal_digits
decimal n = decimal_digits (suc n) n

unfoldable pub decimal_ℤ : ℤ → String
unfolding decimal
decimal_ℤ (pos n) = decimal n
decimal_ℤ (negsuc n) = "-" ++ decimal (suc n)

-- `xerrors.Errorf("context: %w", cause).Error()`
unfoldable pub wrap : String → String → String
wrap context cause = context ++ ": " ++ cause

-- A call whose error is wrapped.
abbrev pub told : String → {A : Type 0} → Result A → Result A
told context (err e) = err (wrap context e)
told context (ok a) = ok a

-- What holds of the rest, for the value that the call returned, holds of both.
pub told-Leaves :
    {A B : Type 0} (P : B → Type 0) (context : String) (r : Result A) (f : A → Result B)
    → ((a : A) → r ≡ ok a → Leaves P (f a))
    → Leaves P (told context r >>= f)
told-Leaves P context (ok a) f h = h a refl
told-Leaves P context (err e) f h = tt

-- A text between two others.
unfoldable pub enclose : String → String → String → String
enclose before text after = before ++ text ++ after
