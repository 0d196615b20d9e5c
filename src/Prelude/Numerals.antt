-- ===== src/Prelude/Numerals.antt =====
-- Decimal numbers: strconv.ParseUint, strconv.Atoi and the `%d` of fmt.
use mathlib.Core.Path.{◌≡◌, refl, ◌∙◌}
use mathlib.Core.Bool.{Bool, true, false}
use mathlib.Core.Logic.{inl, inr}
use mathlib.Core.List.{[], ◌∷◌, ◌++◌}
use Prim.Native.Nat.{ℕ, zero, suc, ◌+◌, ◌-◌, ◌*◌, ◌/◌, ◌%◌, ◌≤◌, ◌<◌}
use native.Mathlib.Omega.{arith}
use atom_loops.Prelude.Tests.{ltb, leb, ◌==◌, if◌then◌else◌, Bool-cases}
use atom_loops.Prelude.Text.{Bytes, is_digit}
use atom_loops.Prelude.Int.{ℤ, pos, negsuc, int_max, uint_mod}

-- What ParseUint returns: a number, ErrSyntax (with 0), or ErrRange (with the largest value).
pub data Parsed : Type 0 where
  number : ℕ → Parsed
  syntax : Parsed
  range : Parsed

-- The loop of ParseUint; a range error is found before a later bad digit.
unfoldable pub parse_from : ℕ → Bytes → Parsed
parse_from acc [] = number acc
parse_from acc (c ∷ s) =
    let n = acc * 10 + (c - b'0') in
    let rest = parse_from n s in
    if is_digit c then (if ltb n uint_mod then rest else range) else syntax

unfoldable pub parse_uint : Bytes → Parsed
unfolding parse_from
parse_uint [] = syntax
parse_uint (c ∷ s) = parse_from 0 (c ∷ s)

-- strconv.Atoi: the value, and whether the error is nil.
abbrev pub positive : Parsed → ℤ × Bool
positive (number n) = if leb n int_max then (pos n, true) else (pos int_max, false)
positive syntax = (pos 0, false)
positive range = (pos int_max, false)

abbrev negative : Parsed → ℤ × Bool
negative (number zero) = (pos 0, true)
negative (number (suc n)) = if leb n int_max then (negsuc n, true) else (negsuc int_max, false)
negative syntax = (pos 0, false)
negative range = (negsuc int_max, false)

unfoldable pub atoi : Bytes → ℤ × Bool
unfolding parse_uint
atoi [] = (pos 0, false)
atoi (c ∷ s) =
    if c == b'-'
    then negative (parse_uint s)
    else (if c == b'+' then positive (parse_uint s) else positive (parse_uint (c ∷ s)))

-- `%d` of a number, most significant digit first. The fuel bounds the digits.
unfoldable pub digits : ℕ → ℕ → Bytes
digits zero n = []
digits (suc f) n =
    let more = digits f (n / 10) ++ (b'0' + n % 10) ∷ [] in
    if ltb n 10 then (b'0' + n) ∷ [] else more

unfoldable pub decimal : ℕ → Bytes
unfolding digits
decimal n = digits (suc n) n

unfoldable pub decimal_ℤ : ℤ → Bytes
unfolding decimal
decimal_ℤ (pos n) = decimal n
decimal_ℤ (negsuc n) = b'-' ∷ decimal (suc n)

-- One more digit at the end.
step : Parsed → ℕ → Parsed
step (number acc) c = parse_from acc (c ∷ [])
step syntax c = syntax
step range c = range

parse_from-snoc :
    (acc : ℕ) (s : Bytes) (c : ℕ) → parse_from acc (s ++ c ∷ []) ≡ step (parse_from acc s) c
unfolding parse_from step
parse_from-snoc acc [] c = refl
parse_from-snoc acc (d ∷ s) c = ground (arith, parse_from-snoc (acc * 10 + (d - b'0')) s c)

parse_from-digit :
    (acc d m : ℕ)
    → d < 10
    → m ≡ acc * 10 + d
    → m < uint_mod
    → parse_from acc ((b'0' + d) ∷ []) ≡ number m
unfolding parse_from
parse_from-digit acc d m h e k = ground arith

-- What is printed reads back.
parse_from-digits : (f n : ℕ) → n < f → n < uint_mod → parse_from 0 (digits f n) ≡ number n
unfolding digits
parse_from-digits zero n h k = absurd (omega arith)
parse_from-digits (suc f) n h k = elim (Bool-cases (ltb n 10)) [
  | inl small ↦ rw small (parse_from-digit 0 n n (ground arith) (omega arith) k)
  | inr large ↦
      rw (large, parse_from-snoc, parse_from-digits f (n / 10) (ground arith) (omega arith))
        (unfold step in parse_from-digit (n / 10) (n % 10) n (omega arith) (omega arith) k)
]

-- `parse_uint` of a text that does not start with a sign is the loop, and is not empty.
digits-cons :
    (f n : ℕ) → n < f → (c : ℕ) × (s : Bytes) × (digits f n ≡ c ∷ s) × (b'0' ≤ c) × (c ≤ b'9')
unfolding digits
digits-cons zero n h = absurd (omega arith)
digits-cons (suc f) n h = elim (Bool-cases (ltb n 10)) [
  | inl small ↦ (b'0' + n, [], rw small, omega arith, ground arith)
  | inr large ↦
      let (c, s, e, lo, hi) = digits-cons f (n / 10) (ground arith) in
      (c, s ++ (b'0' + n % 10) ∷ [], rw (large, e), lo, hi)
]

parse_uint-cons : (s : Bytes) {c : ℕ} {t : Bytes} → s ≡ c ∷ t → parse_uint s ≡ parse_from 0 s
unfolding parse_uint
parse_uint-cons [] e = cc
parse_uint-cons (x ∷ xs) e = refl

pub parse_uint-decimal : (n : ℕ) → n < uint_mod → parse_uint (decimal n) ≡ number n
unfolding decimal
parse_uint-decimal n h =
    let (c, s, e, lo, hi) = digits-cons (suc n) n (omega arith) in
    parse_uint-cons (digits (suc n) n) e ∙ parse_from-digits (suc n) n (omega arith) h

-- An `int` in range is printed and read back.
abbrev pub IsInt : ℤ → Type 0
IsInt (pos n) = n ≤ int_max
IsInt (negsuc n) = n ≤ int_max

atoi-digit :
    (s : Bytes) {c : ℕ} {t : Bytes} → s ≡ c ∷ t → b'0' ≤ c → atoi s ≡ positive (parse_uint s)
unfolding atoi
atoi-digit [] e lo = cc
atoi-digit (x ∷ xs) e lo = ground arith

pub parse_from-decimal : (n : ℕ) → n < uint_mod → parse_from 0 (decimal n) ≡ number n
unfolding decimal
parse_from-decimal n h = parse_from-digits (suc n) n (omega arith) h

pub atoi-decimal_pos : (n : ℕ) → n ≤ int_max → atoi (decimal n) ≡ (pos n, true)
unfolding decimal
atoi-decimal_pos n h =
    let (c, s, e, lo, hi) = digits-cons (suc n) n (omega arith) in
    unfold decimal in
    atoi-digit (decimal n) e lo ∙ rw (parse_uint-decimal n (omega arith)) (ground arith)

pub atoi-decimal : (x : ℤ) → IsInt x → atoi (decimal_ℤ x) ≡ (x, true)
unfolding decimal_ℤ
atoi-decimal (pos n) h = atoi-decimal_pos n h
atoi-decimal (negsuc n) h =
    unfold atoi in rw (parse_uint-decimal (suc n) (omega arith)) (ground arith)
