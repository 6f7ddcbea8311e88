-- ===== src/Storage/Amounts.antt =====
-- The funds that a storage deal keeps track of, on either side: an amount whose number may be nil.
use go_fil_markets.Prelude.{◌≡◌, true, Option, none, some, arith}
use go_fil_markets.Prelude.Int.{ℤ, pos, ◌+ℤ◌, ◌-ℤ◌, is_zero, int_laws}

-- The first amount is taken as it is; nothing is taken from a number that is nil.
abbrev pub plus_reserved : Option ℤ → ℤ → ℤ
plus_reserved none a = a
plus_reserved (some f) a = f +ℤ a

abbrev pub minus_reserved : Option ℤ → ℤ → Option ℤ
minus_reserved none a = none
minus_reserved (some f) a = some (f -ℤ a)

-- What is kept track of; nothing is 0.
abbrev pub tracked : Option ℤ → ℤ
tracked none = pos 0
tracked (some f) = f

pub eq-add_zero : (a : ℤ) → a ≡ a +ℤ pos 0
eq-add_zero a = omega int_laws

pub eq-zero_add : (a : ℤ) → a ≡ pos 0 +ℤ a
eq-zero_add a = omega int_laws

pub sub-eq-add : (a b : ℤ) → a -ℤ b ≡ a +ℤ (pos 0 -ℤ b)
sub-eq-add a b = omega int_laws

pub sub_self : (a : ℤ) → a -ℤ a ≡ pos 0
sub_self a = omega int_laws

pub is_zero-eq : (a : ℤ) → is_zero a ≡ true → a ≡ pos 0
is_zero-eq a h = ground arith
