-- ===== src/Prelude/Text.antt =====
-- Go strings as lists of bytes, and the functions of Go's `strings` that the program calls.
use Prim.Native.Char.{code}
use Prim.Native.Nat.{ℕ}
use Prim.Native.String.{String}
use mathlib.Core.Path.{◌≡◌, refl}
use mathlib.Core.Logic.{◌↔◌}
use mathlib.Core.Bool.{Bool, true, false, ◌&&◌, ◌||◌}
use mathlib.Core.List.{List, [], ◌∷◌}
use mathlib.Core.List.{reverse}
use mathlib.Core.Option.{Option, none, some}
use native.Mathlib.Omega.{arith}
use atom_loops.Prelude.Tests.{◌==◌, leb, ==_iff, if◌then◌else◌}

abbrev pub Bytes : Type 0
Bytes = List ℕ

-- The bytes of an ASCII literal.
abbrev pub codes : String → Bytes
codes String.[] = []
codes (String.◌∷◌ c s) = code c ∷ codes s

infix 50 ◌=b◌
abbrev pub ◌=b◌ : Bytes → Bytes → Bool
[] =b [] = true
[] =b (y ∷ ys) = false
(x ∷ xs) =b [] = false
(x ∷ xs) =b (y ∷ ys) = x == y && xs =b ys

pub =b_iff : (xs ys : Bytes) → (xs =b ys ≡ true) ↔ (xs ≡ ys)
=b_iff [] [] = ground arith
=b_iff [] (y ∷ ys) = ground arith
=b_iff (x ∷ xs) [] = ground arith
=b_iff (x ∷ xs) (y ∷ ys) = ground (arith, =b_iff xs ys, ==_iff x y)

pub =b_refl : (xs : Bytes) → xs =b xs ≡ true
=b_refl xs = (=b_iff xs xs).1 refl

abbrev pub is_empty : Bytes → Bool
is_empty [] = true
is_empty (x ∷ xs) = false

abbrev pub is_digit : ℕ → Bool
is_digit c = leb b'0' c && leb c b'9'

-- The ASCII white space of `unicode.IsSpace`; the other Unicode spaces are not modelled.
abbrev pub is_space : ℕ → Bool
is_space c = leb 9 c && leb c 13 || c == 32

abbrev pub trim_left : Bytes → Bytes
trim_left [] = []
trim_left (c ∷ s) = if is_space c then trim_left s else c ∷ s

-- strings.TrimSpace
abbrev pub trim_space : Bytes → Bytes
trim_space s = reverse (trim_left (reverse (trim_left s)))

-- strings.CutPrefix
abbrev pub cut_prefix : Bytes → Bytes → Option Bytes
cut_prefix [] s = some s
cut_prefix (p ∷ ps) [] = none
cut_prefix (p ∷ ps) (c ∷ s) = if p == c then cut_prefix ps s else none

-- strings.TrimPrefix
abbrev pub trim_prefix : Bytes → Bytes → Bytes
trim_prefix p s = elim (cut_prefix p s) [ none ↦ s | some r ↦ r ]

abbrev pub has_prefix : Bytes → Bytes → Bool
has_prefix p s = elim (cut_prefix p s) [ none ↦ false | some r ↦ true ]

-- strings.Cut at a one-byte separator; `none` where the separator does not occur.
abbrev pub cons_before : ℕ → Option (Bytes × Bytes) → Option (Bytes × Bytes)
cons_before c none = none
cons_before c (some (k, v)) = some (c ∷ k, v)

abbrev pub cut : ℕ → Bytes → Option (Bytes × Bytes)
cut sep [] = none
cut sep (c ∷ s) = if c == sep then some ([], s) else cons_before c (cut sep s)

-- strings.Split at a one-byte separator: never empty.
abbrev pub cons_head : ℕ → List Bytes → List Bytes
cons_head c [] = (c ∷ []) ∷ []
cons_head c (l ∷ ls) = (c ∷ l) ∷ ls

abbrev pub split : ℕ → Bytes → List Bytes
split sep [] = [] ∷ []
split sep (c ∷ s) = let rest = split sep s in if c == sep then [] ∷ rest else cons_head c rest

-- strings.FieldsFunc: the maximal runs of bytes that are not separators.
abbrev pub drop_empty : List Bytes → List Bytes
drop_empty [] = []
drop_empty (l ∷ ls) = if is_empty l then drop_empty ls else l ∷ drop_empty ls

abbrev pub split_by : (ℕ → Bool) → Bytes → List Bytes
split_by p [] = [] ∷ []
split_by p (c ∷ s) = let rest = split_by p s in if p c then [] ∷ rest else cons_head c rest

abbrev pub fields_func : (ℕ → Bool) → Bytes → List Bytes
fields_func p s = drop_empty (split_by p s)

-- A byte string stands before another in Go's `<` on strings.
abbrev pub lt_bytes : Bytes → Bytes → Bool
lt_bytes [] [] = false
lt_bytes [] (y ∷ ys) = true
lt_bytes (x ∷ xs) [] = false
lt_bytes (x ∷ xs) (y ∷ ys) = if x == y then lt_bytes xs ys else leb x y

abbrev pub mem_bytes : Bytes → List Bytes → Bool
mem_bytes x [] = false
mem_bytes x (y ∷ ys) = x =b y || mem_bytes x ys
