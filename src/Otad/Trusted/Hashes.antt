-- ===== src/Otad/Trusted/Hashes.antt =====
-- hashEqual is equality.
use Prim.Native.Nat.{bit_or, bit_xor}
use atom_loops.Prelude.{
  ℕ, ◌<◌, ◌≡◌, refl, false, ◌&&◌, [], ◌∷◌, arith, length, ◌==◌, Bool-cases, inl, inr,
}
use atom_loops.Prelude.Text.{Bytes, ◌=b◌}
use atom_loops.Prelude.HexLaws.{AreBytes}
use atom_loops.Prelude.Bits.{xor_zero, or_zero}
use atom_loops.Otad.Trusted.{hash_equal, or_diffs}

or_diffs_lem :
    (a b : Bytes) (d : ℕ)
    → AreBytes a
    → AreBytes b
    → d < 256
    → length a ≡ length b
    → (or_diffs d a b == 0) ≡ (d == 0 && a =b b)
unfolding or_diffs
or_diffs_lem [] [] d p q h e = ground arith
or_diffs_lem [] (y ∷ b) d p q h e = absurd (omega arith)
or_diffs_lem (x ∷ a) [] d p q h e = absurd (omega arith)
or_diffs_lem (x ∷ a) (y ∷ b) d (px, p) (qy, q) h e =
    let t = xor_zero x y px qy in
    let o = or_zero d (bit_xor x y) h t.0 in
    ground (arith, or_diffs_lem a b (bit_or d (bit_xor x y)) p q o.0 (omega arith))

length-ne : (a b : Bytes) → length a == length b ≡ false → a =b b ≡ false
length-ne [] [] h = cc
length-ne [] (y ∷ b) h = refl
length-ne (x ∷ a) [] h = refl
length-ne (x ∷ a) (y ∷ b) h = ground (arith, length-ne a b)

-- hashEqual of two byte strings is their equality.
pub hash_equal-=b : (a b : Bytes) → AreBytes a → AreBytes b → hash_equal a b ≡ a =b b
unfolding hash_equal
hash_equal-=b a b p q = elim (Bool-cases (length a == length b)) [
  | inl e ↦ rw e (or_diffs_lem a b 0 p q (omega arith) (ground arith))
  | inr e ↦ rw e (ground (arith, length-ne a b))
]
