-- ===== src/Otad/Loader/Markers.antt =====
-- What a loader image and the marker of a candidate are read as.
use atom_loops.Prelude.{
  ◌≡◌, refl, ap, Bool, true, false, ◌||◌, Option, none, some, [], ◌∷◌, ◌++◌, arith, if◌then◌else◌,
  length, ltb,
}
use atom_loops.Prelude.Text.{Bytes, codes, cut, is_empty}
use atom_loops.Prelude.TextLaws.{is_plain, trim_space-plain, split-line, decimal_ℤ-plain}
use atom_loops.Prelude.Int.{ℤ, pos, leb_ℤ}
use atom_loops.Prelude.Hex.{encode_hex, hex_digit}
use atom_loops.Prelude.Numerals.{decimal_ℤ, IsInt, atoi, atoi-decimal}
use atom_loops.Otad.Loader.{
  Keys, loader_marker, after_marker, loader_version_of, marked_version, version_text, number_or_one,
  candidate_fields, ended_lines, read_keys, read_key_lines, with_line, key_value, version_in,
}

number-positive : (r : ℤ × Bool) → leb_ℤ (pos 1) (number_or_one r) ≡ true
unfolding number_or_one
number-positive (v, b) = ground arith

version_text-positive : (o : Option (Bytes × Bytes)) → leb_ℤ (pos 1) (version_text o) ≡ true
unfolding version_text
version_text-positive none = refl
version_text-positive (some (s, t)) = go (is_empty s || ltb 16 (length s))
  where
    go : (b : Bool) → leb_ℤ (pos 1) (if b then pos 1 else number_or_one (atoi s)) ≡ true
    go true = refl
    go false = number-positive (atoi s)

marked_version-positive : (o : Option Bytes) → leb_ℤ (pos 1) (marked_version o) ≡ true
unfolding marked_version
marked_version-positive none = refl
marked_version-positive (some t) = version_text-positive (cut b';' t)

-- A loader has a version of at least one, whatever its bytes are.
pub loader_version_of-positive : (image : Bytes) → leb_ℤ (pos 1) (loader_version_of image) ≡ true
unfolding loader_version_of
loader_version_of-positive image = marked_version-positive (after_marker loader_marker image)

pub encode_hex-plain : (s : Bytes) → is_plain (encode_hex s) ≡ true
unfolding encode_hex hex_digit
encode_hex-plain [] = refl
encode_hex-plain (c ∷ s) = ground (arith, encode_hex-plain s)

module _ (version : ℤ) (sum : Bytes) (small : IsInt version) where
  abbrev version_line : Bytes
  version_line = codes "version=" ++ decimal_ℤ version

  sum_line : Bytes
  sum_line = codes "sha256=" ++ sum

  abbrev both_keys : Keys
  both_keys = (codes "sha256", sum) ∷ (codes "version", decimal_ℤ version) ∷ []

  fields_keys :
      is_plain sum ≡ true → read_keys (ended_lines (candidate_fields version sum)) ≡ both_keys
  unfolding read_keys ended_lines read_key_lines with_line
  fields_keys h =
      rw
        (
          split-line version_line ((codes "sha256=" ++ sum) ++ 10 ∷ []) (decimal_ℤ-plain version),
          split-line (codes "sha256=" ++ sum) [] h,
          trim_space-plain version_line (decimal_ℤ-plain version),
          trim_space-plain (codes "sha256=" ++ sum) h,
        )
        refl

  -- The marker that is written for a candidate is read back as its version, an `int`, and the hash of its
  -- image, a text without white space.
  pub read_keys-candidate_fields :
      is_plain sum ≡ true
      → let ks = read_keys (ended_lines (candidate_fields version sum)) in
        (version_in ks ≡ version) × (key_value ks (codes "sha256") ≡ sum)
  unfolding key_value
  read_keys-candidate_fields h =
      rw (fields_keys h) (ap (λ (r : ℤ × Bool). r.0) (atoi-decimal version small), refl)
