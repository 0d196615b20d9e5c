-- ===== src/Otad/Hardware/Order.antt =====
-- The comparison of kernel versions is antisymmetric: the same pair the other way round.
use atom_loops.Prelude.{false, not, ◌≡◌, refl, List, [], ◌∷◌, arith}
use atom_loops.Prelude.Text.{Bytes, ◌=b◌, =b_iff, lt_bytes}
use atom_loops.Prelude.Int.{=z_iff}
use atom_loops.Prelude.Numerals.{atoi}
use atom_loops.Otad.Hardware.{
  Sign, less, same, greater, cmp_part, cmp_parts, cmp_kernel, then_by, split_ver,
}

abbrev pub flip : Sign → Sign
flip less = greater
flip same = same
flip greater = less

=b_sym : (x y : Bytes) → x =b y ≡ y =b x
=b_sym x y = ground (arith, =b_iff x y, =b_iff y x)

lt_bytes-flip : (x y : Bytes) → x =b y ≡ false → lt_bytes y x ≡ not (lt_bytes x y)
lt_bytes-flip [] [] h = ground arith
lt_bytes-flip [] (y ∷ ys) h = refl
lt_bytes-flip (x ∷ xs) [] h = refl
lt_bytes-flip (x ∷ xs) (y ∷ ys) h = ground (arith, lt_bytes-flip xs ys)

cmp_part-flip : (x y : Bytes) → cmp_part y x ≡ flip (cmp_part x y)
unfolding cmp_part
cmp_part-flip x y = ground (arith, =b_sym x y, lt_bytes-flip x y, =z_iff (atoi x).0 (atoi y).0)

then_by-flip : (o p : Sign) → then_by (flip o) (flip p) ≡ flip (then_by o p)
then_by-flip o p = ground arith

cmp_parts-flip : (xs ys : List Bytes) → cmp_parts ys xs ≡ flip (cmp_parts xs ys)
unfolding cmp_parts
cmp_parts-flip [] [] = refl
cmp_parts-flip [] (y ∷ ys) =
    rw (cmp_part-flip [] y, cmp_parts-flip [] ys) (then_by-flip (cmp_part [] y) (cmp_parts [] ys))
cmp_parts-flip (x ∷ xs) [] =
    rw (cmp_part-flip x [], cmp_parts-flip xs []) (then_by-flip (cmp_part x []) (cmp_parts xs []))
cmp_parts-flip (x ∷ xs) (y ∷ ys) =
    rw (cmp_part-flip x y, cmp_parts-flip xs ys) (then_by-flip (cmp_part x y) (cmp_parts xs ys))

-- Two kernel versions compared the other way round give the opposite sign, so a version is the same as
-- itself.
pub cmp_kernel-flip : (a b : Bytes) → cmp_kernel b a ≡ flip (cmp_kernel a b)
unfolding cmp_kernel
cmp_kernel-flip a b = cmp_parts-flip (split_ver a) (split_ver b)
