-- ===== src/Prelude/TextLaws.antt =====
-- Laws of the text functions on lines without white space.
use mathlib.Core.List.{reverse, reverse-append, reverse-reverse}
use atom_loops.Prelude.{
  ℕ, zero, suc, ◌+◌, ◌/◌, ◌%◌, ◌≡◌, refl, Bool, true, false, not, [], ◌∷◌, ◌++◌, arith, all,
}
use atom_loops.Prelude.Text.{Bytes, ◌=b◌, is_space, trim_left, trim_space, split}
use atom_loops.Prelude.Numerals.{decimal, digits, decimal_ℤ}
use atom_loops.Prelude.Int.{ℤ, pos, negsuc}

-- No byte is white space (so none ends a line).
abbrev pub is_plain : Bytes → Bool
is_plain s = all (λ c. not (is_space c)) s

pub is_plain-append :
    (s t : Bytes) → is_plain s ≡ true → is_plain t ≡ true → is_plain (s ++ t) ≡ true
is_plain-append [] t h k = k
is_plain-append (c ∷ s) t h k = ground (arith, is_plain-append s t)

is_plain-reverse : (s : Bytes) → is_plain s ≡ true → is_plain (reverse s) ≡ true
is_plain-reverse [] h = refl
is_plain-reverse (c ∷ s) h =
    rw (reverse-append (c ∷ []) s)
      (is_plain-append (reverse s) (c ∷ []) (is_plain-reverse s (ground arith)) (ground arith))

trim_left-plain : (s : Bytes) → is_plain s ≡ true → trim_left s ≡ s
trim_left-plain [] h = refl
trim_left-plain (c ∷ s) h = ground arith

pub trim_space-plain : (s : Bytes) → is_plain s ≡ true → trim_space s ≡ s
trim_space-plain s h =
    rw (trim_left-plain s h, trim_left-plain (reverse s) (is_plain-reverse s h)) (reverse-reverse s)

-- The first line of a text that starts with a plain line.
pub split-line : (l r : Bytes) → is_plain l ≡ true → split 10 (l ++ 10 ∷ r) ≡ l ∷ split 10 r
split-line [] r h = refl
split-line (c ∷ l) r h = ground (arith, split-line l r)

digits-plain : (f n : ℕ) → is_plain (digits f n) ≡ true
unfolding digits
digits-plain zero n = refl
digits-plain (suc f) n =
    ground
      (arith, is_plain-append (digits f (n / 10)) ((b'0' + n % 10) ∷ []) (digits-plain f (n / 10)))

pub decimal_ℤ-plain : (x : ℤ) → is_plain (decimal_ℤ x) ≡ true
unfolding decimal_ℤ decimal
decimal_ℤ-plain (pos n) = digits-plain (suc n) n
decimal_ℤ-plain (negsuc n) = digits-plain (suc (suc n)) (suc n)

pub decimal-plain : (n : ℕ) → is_plain (decimal n) ≡ true
unfolding decimal
decimal-plain n = digits-plain (suc n) n

-- A text is not the text with more behind it.
pub longer-ne : (n : Bytes) (c : ℕ) (t : Bytes) → (n ++ c ∷ t) =b n ≡ false
longer-ne [] c t = refl
longer-ne (d ∷ n) c t = ground (arith, longer-ne n c t)

pub ne-longer : (n : Bytes) (c : ℕ) (t : Bytes) → n =b (n ++ c ∷ t) ≡ false
ne-longer [] c t = refl
ne-longer (d ∷ n) c t = ground (arith, ne-longer n c t)
