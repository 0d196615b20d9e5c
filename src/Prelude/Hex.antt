-- ===== src/Prelude/Hex.antt =====
-- encoding/hex, and the case of ASCII texts.
use atom_loops.Prelude.Tests.{leb, ltb, if◌then◌else◌}
use Prim.Native.Nat.{ℕ, ◌+◌, ◌-◌, ◌*◌, ◌/◌, ◌%◌}
use mathlib.Core.Bool.{Bool, ◌&&◌, ◌||◌}
use mathlib.Core.List.{[], ◌∷◌}
use mathlib.Core.Option.{Option, none, some}
use atom_loops.Prelude.Text.{Bytes, is_digit, ◌=b◌}

abbrev pub is_hex_digit : ℕ → Bool
is_hex_digit c = is_digit c || leb b'a' c && leb c b'f' || leb b'A' c && leb c b'F'

abbrev pub hex_value : ℕ → ℕ
hex_value c = if is_digit c then c - b'0' else (if leb b'a' c then c - 87 else c - 55)

-- hex.DecodeString
abbrev pub cons_hex : ℕ → ℕ → Option Bytes → Option Bytes
cons_hex c d none = none
cons_hex c d (some s) = some ((hex_value c * 16 + hex_value d) ∷ s)

unfoldable pub decode_hex : Bytes → Option Bytes
decode_hex [] = some []
decode_hex (c ∷ []) = none
decode_hex (c ∷ d ∷ s) =
    let rest = decode_hex s in if is_hex_digit c && is_hex_digit d then cons_hex c d rest else none

-- hex.EncodeToString
unfoldable pub hex_digit : ℕ → ℕ
hex_digit n = if ltb n 10 then b'0' + n else b'a' + (n - 10)

unfoldable pub encode_hex : Bytes → Bytes
unfolding hex_digit
encode_hex [] = []
encode_hex (c ∷ s) = hex_digit (c / 16) ∷ hex_digit (c % 16) ∷ encode_hex s

-- strings.ToLower of an ASCII text.
unfoldable pub to_lower : Bytes → Bytes
to_lower [] = []
to_lower (c ∷ s) = (if leb b'A' c && leb c b'Z' then c + 32 else c) ∷ to_lower s

-- strings.EqualFold of ASCII texts.
abbrev pub equal_fold : Bytes → Bytes → Bool
equal_fold s t = to_lower s =b to_lower t
