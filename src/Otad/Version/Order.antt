-- ===== src/Otad/Version/Order.antt =====
-- The order of releases whose names end in numbers.
use atom_loops.Prelude.{
  ℕ, zero, suc, ◌+◌, ◌-◌, ◌*◌, ◌≤◌, ◌<◌, ◌≡◌, refl, Bool, true, false, [], ◌∷◌, ◌++◌, some, arith,
  ltb, ◌==◌, length, drop, get_or, Bool-cases, inl, inr,
}
use atom_loops.Prelude.Text.{Bytes, is_digit}
use atom_loops.Prelude.Int.{ℤ, pos, int_max, uint_mod, wrap_int}
use atom_loops.Prelude.Numerals.{
  Parsed, decimal, parse_from, parse_uint, number, syntax, range, positive, parse_from-decimal,
  atoi,
}
use atom_loops.Deployment.Transition.Versions.{ends_in_digit, drop-run, run-not_empty}
use atom_loops.Deployment.Transition.{digits_start}
use atom_loops.Otad.Version.{digits_sum, version_num, is_downgrade}

-- Where ParseUint finds a number, the sum is that number.
digits_sum-parse_from :
    (acc : ℕ) (s : Bytes) (n : ℕ)
    → parse_from acc s ≡ number n
    → acc < uint_mod
    → digits_sum acc s ≡ n
unfolding digits_sum parse_from
digits_sum-parse_from acc [] n h k = ground arith
digits_sum-parse_from acc (c ∷ s) n h k =
    ground (arith, digits_sum-parse_from (acc * 10 + (c - b'0')) s n)

version_num-decimal :
    (p : Bytes) (n : ℕ)
    → ends_in_digit p ≡ false
    → n ≤ int_max
    → version_num (p ++ decimal n) ≡ some (pos n)
unfolding version_num
version_num-decimal p n e h =
    rw
      (
        run-not_empty p n e,
        drop-run p n e,
        digits_sum-parse_from 0 (decimal n) n (parse_from-decimal n (omega arith)) (omega arith),
      )
      (ground arith)

-- For two releases whose names are texts that do not end in digits, followed by numbers in the range
-- of `int`, the first is a downgrade below the second exactly when its number is less.
pub is_downgrade-decimal :
    (p q : Bytes) (m n : ℕ)
    → ends_in_digit p ≡ false
    → ends_in_digit q ≡ false
    → m ≤ int_max
    → n ≤ int_max
    → is_downgrade (p ++ decimal m) (q ++ decimal n) ≡ ltb m n
unfolding is_downgrade
is_downgrade-decimal p q m n e f h k =
    ground (arith, version_num-decimal p m e h, version_num-decimal q n f k)

-- The text is empty or starts with a digit.
abbrev starts_right : Bytes → Bool
starts_right [] = true
starts_right (c ∷ s) = is_digit c

drop-digit : (v : Bytes) (i : ℕ) → is_digit (get_or v i 0) ≡ true → starts_right (drop i v) ≡ true
drop-digit [] zero h = refl
drop-digit [] (suc i) h = refl
drop-digit (c ∷ v) zero h = h
drop-digit (c ∷ v) (suc i) h = drop-digit v i h

drop-length : (v : Bytes) → starts_right (drop (length v) v) ≡ true
drop-length [] = refl
drop-length (c ∷ v) = drop-length v

digits_start-right :
    (v : Bytes) (k : ℕ)
    → starts_right (drop k v) ≡ true
    → starts_right (drop (digits_start v k) v) ≡ true
unfolding digits_start
digits_start-right v zero h = h
digits_start-right v (suc i) h = elim (Bool-cases (is_digit (get_or v i 0))) [
  | inl e ↦ rw e (digits_start-right v i (drop-digit v i e))
  | inr e ↦ rw e h
]

parsed_sum :
    (s : Bytes) (n : ℤ) (p : Parsed)
    → parse_from 0 s ≡ p
    → positive p ≡ (n, true)
    → wrap_int (digits_sum 0 s) ≡ n
parsed_sum s n (number m) e h = rw (digits_sum-parse_from 0 s m e (omega arith)) (ground arith)
parsed_sum s n syntax e h = cc
parsed_sum s n range e h = cc

atoi-digits_sum :
    (s : Bytes) (n : ℤ) → starts_right s ≡ true → atoi s ≡ (n, true) → wrap_int (digits_sum 0 s) ≡ n
unfolding atoi parse_uint
atoi-digits_sum [] n d h = cc
atoi-digits_sum (c ∷ s) n d h = parsed_sum (c ∷ s) n (parse_from 0 (c ∷ s)) refl (ground arith)

-- Where Atoi reads the digits at the end of a name, versionNum has that number.
pub version_num-atoi :
    (v : Bytes) (n : ℤ)
    → digits_start v (length v) == length v ≡ false
    → atoi (drop (digits_start v (length v)) v) ≡ (n, true)
    → version_num v ≡ some n
unfolding version_num
version_num-atoi v n h e =
    let d = digits_start-right v (length v) (drop-length v) in
    rw (h, atoi-digits_sum (drop (digits_start v (length v)) v) n d e)
