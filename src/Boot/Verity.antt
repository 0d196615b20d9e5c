-- ===== src/Boot/Verity.antt =====
-- boot/verity.go: the superblock of a dm-verity hash device, and the table that maps it.
pub mod Laws
use mathlib.Core.List.{reverse}
use Prim.Native.Nat.{bit_and}
use atom_loops.Prelude.{
  ℕ, zero, suc, ◌+◌, ◌-◌, ◌*◌, ◌/◌, ◌%◌, Bool, true, false, not, ◌&&◌, ◌||◌, Option, none, some,
  List, [], ◌∷◌, ◌++◌, ltb, leb, length, take, drop, get_or, ◌==◌, if◌then◌else◌,
}
use atom_loops.Prelude.Text.{Bytes, codes, ◌=b◌, is_empty, is_digit}
use atom_loops.Prelude.Numerals.{decimal}
use atom_loops.Prelude.Hex.{is_hex_digit, encode_hex, to_lower}

pub record VeritySuperblock : Type 0 where
  pub version : ℕ  -- uint32
  pub hash_type : ℕ  -- uint32
  pub algorithm : Bytes
  pub data_block_size : ℕ  -- uint32
  pub hash_block_size : ℕ  -- uint32
  pub data_blocks : ℕ  -- uint64
  pub salt : Bytes

abbrev pub verity_magic : Bytes
verity_magic = codes "verity" ++ 0 ∷ 0 ∷ []

-- binary.LittleEndian of so many bytes.
unfoldable pub le_uint : ℕ → Bytes → ℕ
le_uint zero s = 0
le_uint (suc n) [] = 0
le_uint (suc n) (c ∷ s) = c + 256 * le_uint n s

-- bytes.TrimRight(s, "\x00")
trim_zeros : Bytes → Bytes
trim_zeros [] = []
trim_zeros (c ∷ s) = if c == 0 then trim_zeros s else c ∷ s

abbrev trim_right : Bytes → Bytes
trim_right s = reverse (trim_zeros (reverse s))

-- A block size that the loop refuses.
abbrev pub size_is_bad : ℕ → Bool
size_is_bad n = ltb n 512 || ltb 65536 n || not (bit_and n (n - 1) == 0)

-- The fields of the superblock, as they are read before the checks.
unfoldable pub raw_superblock : Bytes → VeritySuperblock
unfolding trim_zeros
raw_superblock buf = record {
  version = le_uint 4 (drop 8 buf);
  hash_type = le_uint 4 (drop 12 buf);
  algorithm = trim_right (take 32 (drop 32 buf));
  data_block_size = le_uint 4 (drop 64 buf);
  hash_block_size = le_uint 4 (drop 68 buf);
  data_blocks = le_uint 8 (drop 72 buf);
  salt = take (le_uint 2 (drop 80 buf)) (drop 88 buf);
}

-- ParseVeritySuperblock; `none` stands for its errors.
unfoldable pub parse_verity_superblock : Bytes → Option VeritySuperblock
parse_verity_superblock buf =
    let sb = raw_superblock buf in
    if ltb (length buf) 512 || not (take 8 buf =b verity_magic)
    then none
    else (if not (sb.version == 1) || not (sb.hash_type == 1) || ltb 256 (le_uint 2 (drop 80 buf))
        then none
        else (if not (sb.algorithm =b codes "sha256")
            then none
            else (if size_is_bad sb.data_block_size || size_is_bad sb.hash_block_size
                then none
                else (if sb.data_blocks == 0 then none else some sb))))

-- hex.DecodeString takes a text of pairs of hexadecimal digits.
decoded_length : Bytes → Option ℕ
decoded_length [] = some 0
decoded_length (c ∷ []) = none
decoded_length (c ∷ d ∷ s) = elim (is_hex_digit c && is_hex_digit d) [
  | true ↦ elim (decoded_length s) [ none ↦ none | some n ↦ some (suc n) ]
  | false ↦ none
]

-- ValidRootHash
unfoldable pub valid_root_hash : Bytes → Bool
unfolding decoded_length
valid_root_hash h = elim (decoded_length h) [ none ↦ false | some n ↦ n == 32 ]

join_fields : List Bytes → Bytes
join_fields [] = []
join_fields (f ∷ []) = f
join_fields (f ∷ g ∷ fs) = f ++ b' ' ∷ join_fields (g ∷ fs)

-- VerityTable
unfoldable pub verity_table : VeritySuperblock → Bytes → Bytes → Bytes → Bytes
unfolding join_fields encode_hex to_lower
verity_table sb data_dev hash_dev root_hash = join_fields (
    decimal sb.hash_type
    ∷ data_dev
    ∷ hash_dev
    ∷ decimal sb.data_block_size
    ∷ decimal sb.hash_block_size
    ∷ decimal sb.data_blocks
    ∷ codes "1"
    ∷ sb.algorithm
    ∷ to_lower root_hash
    ∷ (if is_empty sb.salt then codes "-" else encode_hex sb.salt)
    ∷ [])

-- The size of verityTarget's buffer: the header and the parameters with a zero byte, in whole words.
unfoldable pub target_size : ℕ → ℕ
target_size plen = 40 + (plen + 1 + 7) / 8 * 8
