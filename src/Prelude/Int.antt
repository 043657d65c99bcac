-- ===== src/Prelude/Int.antt =====
-- Go's int as a signed number, with its order as a Boolean test and the wrap of a result.
use Prim.Native.Nat.{ℕ, suc, ◌+◌, ◌-◌, ◌*◌, ◌%◌, ◌^◌}
use mathlib.Core.Path.{◌≡◌}
use mathlib.Core.Bool.{Bool, true, false}
use native.Mathlib.Omega.{arith}
use mantlekeep.Prelude.Tests.{leb, ltb, if◌then◌else◌}

-- `negsuc n` is -(n + 1).
pub data ℤ : Type 0 where
  pos : ℕ → ℤ
  negsuc : ℕ → ℤ

abbrev pub leb_int : ℤ → ℤ → Bool
leb_int (pos a) (pos b) = leb a b
leb_int (pos a) (negsuc b) = false
leb_int (negsuc a) (pos b) = true
leb_int (negsuc a) (negsuc b) = leb b a

-- A difference of two naturals.
abbrev pub minus : ℕ → ℕ → ℤ
minus a b = if leb b a then pos (a - b) else negsuc (b - suc a)

infixl 6 ◌+ℤ◌
abbrev pub ◌+ℤ◌ : ℤ → ℤ → ℤ
pos a +ℤ pos b = pos (a + b)
pos a +ℤ negsuc b = minus a (suc b)
negsuc a +ℤ pos b = minus b (suc a)
negsuc a +ℤ negsuc b = negsuc (suc (a + b))

abbrev pub times_thousand : ℤ → ℤ
times_thousand (pos a) = pos (1000 * a)
times_thousand (negsuc a) = negsuc (1000 * a + 999)

-- Go's int has 64 bits: a number below 2 ^ 64 as one, and the wrap of a result.
abbrev int_mod : ℕ
int_mod = 2 ^ 64

abbrev as_int : ℕ → ℤ
as_int m = if ltb m (2 ^ 63) then pos m else negsuc (int_mod - 1 - m)

unfoldable pub wrap_int : ℤ → ℤ
wrap_int (pos n) = as_int (n % int_mod)
wrap_int (negsuc n) = as_int (int_mod - 1 - n % int_mod)

pub leb_int_refl : (a : ℤ) → leb_int a a ≡ true
leb_int_refl (pos a) = ground arith
leb_int_refl (negsuc a) = ground arith

pub leb_int_trans : (a b c : ℤ) → leb_int a b ≡ true → leb_int b c ≡ true → leb_int a c ≡ true
leb_int_trans a b c p q = ground arith
