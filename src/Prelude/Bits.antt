-- ===== src/Prelude/Bits.antt =====
-- Facts about the bits of bytes, by evaluation over all of them.
use Prim.Native.Nat.{ℕ, zero, suc, ◌<◌, bit_or, bit_xor}
use mathlib.Core.Path.{◌≡◌, refl}
use mathlib.Core.Bool.{Bool, true, false, ◌&&◌, not}
use native.Mathlib.Omega.{arith}
use atom_loops.Prelude.Tests.{◌==◌, ltb}

all_below : ℕ → (ℕ → Bool) → Bool
all_below zero p = true
all_below (suc n) p = p n && all_below n p

all_below_lem : (n : ℕ) (p : ℕ → Bool) (x : ℕ) → all_below n p ≡ true → x < n → p x ≡ true
unfolding all_below
all_below_lem zero p x h lt = absurd (omega arith)
all_below_lem (suc n) p x h lt = ground (arith, all_below_lem n p x)

abbrev same : Bool → Bool → Bool
same true b = b
same false b = not b

abbrev xor_good : ℕ → ℕ → Bool
xor_good x y = ltb (bit_xor x y) 256 && same (bit_xor x y == 0) (x == y)

abbrev or_good : ℕ → ℕ → Bool
or_good x y = ltb (bit_or x y) 256 && same (bit_or x y == 0) (x == 0 && y == 0)

xor_table : all_below 256 (λ x. all_below 256 (xor_good x)) ≡ true
unfolding all_below
xor_table = refl

or_table : all_below 256 (λ x. all_below 256 (or_good x)) ≡ true
unfolding all_below
or_table = refl

pub xor_zero : (x y : ℕ) → x < 256 → y < 256 → (bit_xor x y < 256) × ((bit_xor x y == 0) ≡ (x == y))
xor_zero x y h k =
    let t =
      all_below_lem 256 (xor_good x) y
        (all_below_lem 256 (λ x. all_below 256 (xor_good x)) x xor_table h) k in
    ground arith

pub or_zero :
    (x y : ℕ) → x < 256 → y < 256 → (bit_or x y < 256) × ((bit_or x y == 0) ≡ (x == 0 && y == 0))
or_zero x y h k =
    let t =
      all_below_lem 256 (or_good x) y
        (all_below_lem 256 (λ x. all_below 256 (or_good x)) x or_table h) k in
    ground arith
