-- ===== src/Deployment/Transition/Versions.antt =====
-- The kernelcache version of a release's name: the number at its end.
use atom_loops.Prelude.{
  ℕ, zero, suc, ◌+◌, ◌/◌, ◌%◌, ◌≤◌, ◌<◌, ◌≡◌, refl, sym, ap, ◌∙◌, Bool, true, false, [], ◌∷◌, ◌++◌,
  some, arith, length, get_or, drop, length-append, ◌==◌,
}
use atom_loops.Prelude.Text.{Bytes, is_digit}
use atom_loops.Prelude.Int.{pos, int_max}
use atom_loops.Prelude.Numerals.{decimal, digits, atoi-decimal_pos}
use atom_loops.Deployment.Transition.{digits_start, kc_of}

abbrev pub ends_in_digit : Bytes → Bool
ends_in_digit [] = false
ends_in_digit (c ∷ []) = is_digit c
ends_in_digit (c ∷ d ∷ s) = ends_in_digit (d ∷ s)

-- Every byte is a digit.
abbrev pub AllDigits : Bytes → Type 0
AllDigits [] = Unit
AllDigits (c ∷ s) = (is_digit c ≡ true) × AllDigits s

AllDigits-snoc : (s : Bytes) (c : ℕ) → AllDigits s → is_digit c ≡ true → AllDigits (s ++ c ∷ [])
AllDigits-snoc [] c h k = (k, tt)
AllDigits-snoc (d ∷ s) c h k = (h.0, AllDigits-snoc s c h.1 k)

digits-AllDigits : (f n : ℕ) → AllDigits (digits f n)
unfolding digits
digits-AllDigits zero n = tt
digits-AllDigits (suc f) n =
    ground (arith, AllDigits-snoc (digits f (n / 10)) (b'0' + n % 10) (digits-AllDigits f (n / 10)))

get_or-digit : (s : Bytes) (i : ℕ) → AllDigits s → i < length s → is_digit (get_or s i 0) ≡ true
get_or-digit [] i h k = absurd (omega arith)
get_or-digit (c ∷ s) zero h k = h.0
get_or-digit (c ∷ s) (suc i) h k = get_or-digit s i h.1 (omega arith)

get_or-append_right :
    (p s : Bytes) (i j : ℕ) → j ≡ length p + i → get_or (p ++ s) j 0 ≡ get_or s i 0
get_or-append_right [] s i j e = ap (λ n. get_or s n 0) (omega arith)
get_or-append_right (c ∷ p) s i zero e = absurd (omega arith)
get_or-append_right (c ∷ p) s i (suc j) e = get_or-append_right p s i j (omega arith)

get_or-last :
    (p s : Bytes) (k : ℕ)
    → length p ≡ suc k
    → ends_in_digit p ≡ false
    → is_digit (get_or (p ++ s) k 0) ≡ false
get_or-last [] s k e h = absurd (omega arith)
get_or-last (c ∷ []) s zero e h = h
get_or-last (c ∷ []) s (suc k) e h = absurd (omega arith)
get_or-last (c ∷ d ∷ p) s zero e h = absurd (omega arith)
get_or-last (c ∷ d ∷ p) s (suc k) e h = get_or-last (d ∷ p) s k (omega arith) h

drop-append : (p s : Bytes) → drop (length p) (p ++ s) ≡ s
drop-append [] s = refl
drop-append (c ∷ p) s = drop-append p s

digits_start-prefix :
    (p s : Bytes) (n : ℕ) → n ≡ length p → ends_in_digit p ≡ false → digits_start (p ++ s) n ≡ n
unfolding digits_start
digits_start-prefix p s zero e h = refl
digits_start-prefix p s (suc k) e h = rw (get_or-last p s k (sym e) h)

digits_start-digits :
    (p s : Bytes) (i n : ℕ)
    → AllDigits s
    → i ≤ length s
    → ends_in_digit p ≡ false
    → n ≡ length p + i
    → digits_start (p ++ s) n ≡ length p
unfolding digits_start
digits_start-digits p s zero n d h e q = digits_start-prefix p s n (omega arith) e ∙ omega arith
digits_start-digits p s (suc i) zero d h e q = absurd (omega arith)
digits_start-digits p s (suc i) (suc n) d h e q =
    rw (get_or-append_right p s i n (omega arith), get_or-digit s i d (omega arith))
      (digits_start-digits p s i n d (omega arith) e (omega arith))

digits-length : (f n : ℕ) → n < f → 0 < length (digits f n)
unfolding digits
digits-length zero n h = absurd (omega arith)
digits-length (suc f) n h =
    ground (arith, length-append {0} (digits f (n / 10)) ((b'0' + n % 10) ∷ []))

-- The trailing run of digits of such a name starts behind the text.
pub digits_start-decimal :
    (p : Bytes) (n : ℕ)
    → ends_in_digit p ≡ false
    → digits_start (p ++ decimal n) (length (p ++ decimal n)) ≡ length p
unfolding decimal
digits_start-decimal p n e =
    digits_start-digits p (decimal n) (length (decimal n)) (length (p ++ decimal n))
      (digits-AllDigits (suc n) n) (omega arith) e (length-append p (decimal n))

pub run-not_empty :
    (p : Bytes) (n : ℕ)
    → ends_in_digit p ≡ false
    → (digits_start (p ++ decimal n) (length (p ++ decimal n)) == length (p ++ decimal n)) ≡ false
unfolding decimal
run-not_empty p n e =
    ground
      (arith, digits_start-decimal p n e, length-append {0} p (decimal n), digits-length (suc n) n)

pub drop-run :
    (p : Bytes) (n : ℕ)
    → ends_in_digit p ≡ false
    → drop (digits_start (p ++ decimal n) (length (p ++ decimal n))) (p ++ decimal n) ≡ decimal n
drop-run p n e = rw (digits_start-decimal p n e) (drop-append p (decimal n))

-- The version of a release whose name is a text that does not end in a digit, followed by a number in
-- the range of `int`, is that number.
pub kc_of-decimal :
    (p : Bytes) (n : ℕ)
    → ends_in_digit p ≡ false
    → n ≤ int_max
    → kc_of (p ++ decimal n) ≡ some (pos n)
unfolding kc_of
kc_of-decimal p n e h = rw (run-not_empty p n e, drop-run p n e, atoi-decimal_pos n h)
