-- ===== src/Prelude/HexLaws.antt =====
-- hex.DecodeString reads what hex.EncodeToString writes.
use Prim.Native.Nat.{ℕ, ◌+◌, ◌*◌, ◌/◌, ◌%◌, ◌<◌}
use mathlib.Core.Path.{◌≡◌, refl, sym, ap, ◌∙◌}
use mathlib.Core.Bool.{true, ◌&&◌}
use mathlib.Core.List.{[], ◌∷◌}
use mathlib.Core.Option.{some}
use native.Mathlib.Omega.{arith}
use atom_loops.Prelude.Text.{Bytes, =b_iff}
use atom_loops.Prelude.Hex.{
  is_hex_digit, hex_value, hex_digit, encode_hex, decode_hex, to_lower, equal_fold,
}

digit_lem : (n : ℕ) → n < 16 → (is_hex_digit (hex_digit n) ≡ true) × (hex_value (hex_digit n) ≡ n)
unfolding hex_digit
digit_lem n h = ground arith

pair_lem :
    (c : ℕ)
    → c < 256
    → (is_hex_digit (hex_digit (c / 16)) && is_hex_digit (hex_digit (c % 16)) ≡ true)
      × (hex_value (hex_digit (c / 16)) * 16 + hex_value (hex_digit (c % 16)) ≡ c)
pair_lem c h =
    let p = digit_lem (c / 16) (omega arith) in
    let q = digit_lem (c % 16) (omega arith) in (rw (p.0, q.0) refl, rw (p.1, q.1) (omega arith))

-- The numbers are bytes.
abbrev pub AreBytes : Bytes → Type 0
AreBytes [] = Unit
AreBytes (c ∷ s) = (c < 256) × AreBytes s

pub decode_hex-encode_hex : (s : Bytes) → AreBytes s → decode_hex (encode_hex s) ≡ some s
unfolding decode_hex encode_hex
decode_hex-encode_hex [] h = refl
decode_hex-encode_hex (c ∷ s) (b, h) =
    let p = pair_lem c b in rw (p.0, decode_hex-encode_hex s h, p.1) refl

lower_digit : (n : ℕ) → n < 16 → to_lower (hex_digit n ∷ []) ≡ hex_digit n ∷ []
unfolding to_lower hex_digit
lower_digit n h = ground arith

to_lower-cons : (c : ℕ) (s : Bytes) → to_lower (c ∷ []) ≡ c ∷ [] → to_lower (c ∷ s) ≡ c ∷ to_lower s
unfolding to_lower
to_lower-cons c s h = ground arith

to_lower-encode_hex : (s : Bytes) → AreBytes s → to_lower (encode_hex s) ≡ encode_hex s
unfolding encode_hex
to_lower-encode_hex [] h = unfold to_lower in refl
to_lower-encode_hex (c ∷ s) (b, h) =
    rw
      (
        to_lower-cons (hex_digit (c / 16)) (hex_digit (c % 16) ∷ encode_hex s)
            (lower_digit (c / 16) (omega arith)),
        to_lower-cons (hex_digit (c % 16)) (encode_hex s) (lower_digit (c % 16) (omega arith)),
        to_lower-encode_hex s h,
      )
      refl

-- Two byte strings whose hexadecimal texts are the same but for case are the same.
pub equal_fold-encode_hex :
    (a b : Bytes)
    → AreBytes a
    → AreBytes b
    → equal_fold (encode_hex a) (encode_hex b) ≡ true
    → a ≡ b
equal_fold-encode_hex a b p q h =
    let f = (=b_iff (to_lower (encode_hex a)) (to_lower (encode_hex b))).0 h in
    let g = sym (to_lower-encode_hex a p) ∙ f ∙ to_lower-encode_hex b q in
    let d = sym (decode_hex-encode_hex a p) ∙ ap decode_hex g ∙ decode_hex-encode_hex b q in cc
