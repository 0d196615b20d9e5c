-- ===== src/Boot/Verity/Laws.antt =====
-- A superblock that is written as the format says is read back.
use atom_loops.Prelude.{
  ℕ, zero, suc, ◌/◌, ◌%◌, ◌≤◌, ◌<◌, ◌≡◌, refl, ap, false, some, [], ◌∷◌, ◌++◌, arith, length, take,
}
use atom_loops.Prelude.Text.{Bytes, codes}
use atom_loops.Boot.Verity.{
  verity_magic, le_uint, raw_superblock, parse_verity_superblock, size_is_bad,
}

abbrev zeros : ℕ → Bytes
zeros zero = []
zeros (suc n) = 0 ∷ zeros n

-- A number in little-endian bytes.
abbrev le_bytes : ℕ → ℕ → Bytes
le_bytes zero x = []
le_bytes (suc n) x = (x % 256) ∷ le_bytes n (x / 256)

le_uint-le_bytes_4 : (x : ℕ) (r : Bytes) → x < 4294967296 → le_uint 4 (le_bytes 4 x ++ r) ≡ x
unfolding le_uint
le_uint-le_bytes_4 x r h = omega arith

le_uint-le_bytes_2 : (x : ℕ) (r : Bytes) → x < 65536 → le_uint 2 (le_bytes 2 x ++ r) ≡ x
unfolding le_uint
le_uint-le_bytes_2 x r h = omega arith

le_uint-le_bytes_8 :
    (x : ℕ) (r : Bytes) → x < 18446744073709551616 → le_uint 8 (le_bytes 8 x ++ r) ≡ x
unfolding le_uint
le_uint-le_bytes_8 x r h = omega arith

take-salt : (s r : Bytes) (n : ℕ) → n ≡ length s → take n (s ++ r) ≡ s
take-salt [] r zero e = refl
take-salt [] r (suc n) e = absurd (omega arith)
take-salt (c ∷ s) r zero e = absurd (omega arith)
take-salt (c ∷ s) r (suc n) e = ap (λ t. c ∷ t) (take-salt s r n (omega arith))

-- The layout of the format, version 1 over sha256: the magic, version and type, a UUID of any 16 bytes, the
-- algorithm, the two block sizes, the number of data blocks, the size of the salt, and the salt; `rest`
-- is what follows it.
abbrev pub layout : ℕ → ℕ → ℕ → ℕ → Bytes → Bytes → Bytes
layout uuid data_size hash_size blocks salt rest =
    verity_magic
    ++ (le_bytes 4 1
        ++ (le_bytes 4 1
            ++ (le_bytes 16 uuid
                ++ (codes "sha256"
                    ++ (zeros 26
                        ++ (le_bytes 4 data_size
                            ++ (le_bytes 4 hash_size
                                ++ (le_bytes 8 blocks
                                    ++ (le_bytes 2 (length salt)
                                        ++ (zeros 6 ++ (salt ++ rest)))))))))))

size_small : (n : ℕ) → size_is_bad n ≡ false → n < 4294967296
size_small n h = ground arith

module _ (uuid data_size hash_size blocks : ℕ) (salt rest : Bytes)
    (data_good : size_is_bad data_size ≡ false) (hash_good : size_is_bad hash_size ≡ false)
    (some_blocks : 0 < blocks) (few : blocks < 18446744073709551616) (short : length salt ≤ 256)
    (long : 512 ≤ length (layout uuid data_size hash_size blocks salt rest)) where
  fields : raw_superblock (layout uuid data_size hash_size blocks salt rest) ≡ record {
    version = 1;
    hash_type = 1;
    algorithm = codes "sha256";
    data_block_size = data_size;
    hash_block_size = hash_size;
    data_blocks = blocks;
    salt = salt;
  }
  unfolding raw_superblock le_uint
  fields = λ i. record {
    version = 1;
    hash_type = 1;
    algorithm = codes "sha256";
    data_block_size = le_uint-le_bytes_4 data_size [] (size_small data_size data_good) i;
    hash_block_size = le_uint-le_bytes_4 hash_size [] (size_small hash_size hash_good) i;
    data_blocks = le_uint-le_bytes_8 blocks [] few i;
    salt = take-salt salt rest _ (le_uint-le_bytes_2 (length salt) [] (omega arith)) i;
  }

  -- A hash device of at least 512 bytes, laid out as the format says with any UUID, good block sizes, some
  -- data blocks (a number of 64 bits), and a salt of at most 256 bytes, is accepted with those values.
  pub parse_verity_superblock-layout :
      parse_verity_superblock (layout uuid data_size hash_size blocks salt rest)
      ≡ some (record {
        version = 1;
        hash_type = 1;
        algorithm = codes "sha256";
        data_block_size = data_size;
        hash_block_size = hash_size;
        data_blocks = blocks;
        salt = salt;
      })
  unfolding parse_verity_superblock
  parse_verity_superblock-layout = rw fields (
      ground (
        arith,
        data_good,
        hash_good,
        le_uint-le_bytes_2 (length salt) (zeros 6 ++ (salt ++ rest)) (omega arith),
      ))
