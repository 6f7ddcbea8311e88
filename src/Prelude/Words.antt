-- ===== src/Prelude/Words.antt =====
-- uint64 arithmetic as Go computes it, and the conversion int64(x) of a uint64.
use Prim.Native.Nat.{ℕ, ◌+◌, ◌-◌, ◌%◌, ◌^◌, ◌<◌}
use mathlib.Core.Path.{◌≡◌}
use native.Mathlib.Omega.{arith}
use go_fil_markets.Prelude.Tests.{ltb, if◌then◌else◌}
use go_fil_markets.Prelude.Int.{ℤ, pos, negsuc}

-- The sum of two uint64 values wraps.
abbrev pub add64 : ℕ → ℕ → ℕ
add64 a b = (a + b) % 2 ^ 64

-- int64(x) keeps the bits: the upper half of the uint64 range becomes negative.
abbrev pub int64 : ℕ → ℤ
int64 x = if ltb x (2 ^ 63) then pos x else negsuc (2 ^ 64 - x - 1)

pub int64_small : (x : ℕ) → x < 2 ^ 63 → int64 x ≡ pos x
int64_small x h = ground arith
