-- ===== src/Prelude/Int.antt =====
-- Go's `int` and `int64`: signed, 64 bits, wrapping. Only the operations that the program uses.
use Prim.Native.Nat.{ℕ, zero, suc, ◌+◌, ◌-◌, ◌%◌}
use mathlib.Core.Path.{◌≡◌}
use mathlib.Core.Logic.{◌↔◌}
use mathlib.Core.Bool.{Bool, true, false, not}
use native.Mathlib.Omega.{arith}
use atom_loops.Prelude.Tests.{ltb, leb, ◌==◌, if◌then◌else◌}

-- `negsuc n` is -(n + 1).
pub data ℤ : Type 0 where
  pos : ℕ → ℤ
  negsuc : ℕ → ℤ

-- math.MaxInt64
abbrev pub int_max : ℕ
int_max = 9223372036854775807

-- 1 << 64
abbrev pub uint_mod : ℕ
uint_mod = 18446744073709551616

abbrev pub ltb_ℤ : ℤ → ℤ → Bool
ltb_ℤ (pos a) (pos b) = ltb a b
ltb_ℤ (pos a) (negsuc b) = false
ltb_ℤ (negsuc a) (pos b) = true
ltb_ℤ (negsuc a) (negsuc b) = ltb b a

abbrev pub leb_ℤ : ℤ → ℤ → Bool
leb_ℤ a b = not (ltb_ℤ b a)

infix 50 ◌=z◌
abbrev pub ◌=z◌ : ℤ → ℤ → Bool
pos a =z pos b = a == b
pos a =z negsuc b = false
negsuc a =z pos b = false
negsuc a =z negsuc b = a == b

pub =z_iff : (a b : ℤ) → (a =z b ≡ true) ↔ (a ≡ b)
=z_iff a b = ground arith

-- x++
abbrev pub increment : ℤ → ℤ
increment (pos n) = if n == int_max then negsuc int_max else pos (n + 1)
increment (negsuc zero) = pos 0
increment (negsuc (suc n)) = negsuc n

-- x--
abbrev pub decrement : ℤ → ℤ
decrement (pos zero) = negsuc 0
decrement (pos (suc n)) = pos n
decrement (negsuc n) = if n == int_max then pos int_max else negsuc (n + 1)

-- The `int` whose bit pattern is the number modulo 2^64.
abbrev pub wrap_int : ℕ → ℤ
wrap_int n = let r = n % uint_mod in if leb r int_max then pos r else negsuc (uint_mod - 1 - r)

-- uint64(x)
abbrev pub to_uint : ℤ → ℕ
to_uint (pos n) = n
to_uint (negsuc n) = uint_mod - 1 - n
