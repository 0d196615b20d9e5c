-- ===== src/Signing.antt =====
-- internal/signing/signing.go: the release side. It issues certificates, revocation lists, manifests and
-- signatures, which the daemon verifies.
pub mod Release
pub mod Written
pub mod Certified
pub mod Hashed
use atom_loops.Prelude.{
  ℕ, Bool, true, false, not, Option, none, some, List, ◌==◌, length, if◌then◌else◌,
}
use atom_loops.Prelude.Text.{Bytes, codes}
use atom_loops.Prelude.Int.{ℤ, pos}
use atom_loops.Prelude.Hex.{encode_hex}
use atom_loops.System.Files.{FilePath, suffixed}
use atom_loops.System.Io.{Io, message, pure, throw, fresh, read_file, write_new, ◌>>=◌, ◌>>◌}
use atom_loops.Otad.Manifest.{Manifest}
use atom_loops.Trust.{SigningCert, Revocation}

-- What the release side uses of the libraries. `sign` takes the private key; `generate` is the pair of a
-- public and a private key that the source of randomness gives in that round, `none` where it fails; the
-- encoders are those of encoding/json; `stamp` is the text of a time plus a duration.
pub record Signer : Type 0 where
  pub sign : Bytes → Bytes → Bytes
  pub generate : ℕ → Option (Bytes × Bytes)
  pub json_of_cert : SigningCert → Option Bytes
  pub json_of_revocation : Revocation → Option Bytes
  pub json_of_manifest : Manifest → Option Bytes
  pub encode_base64 : Bytes → Bytes
  pub stamp : ℕ → ℤ → Bytes
  pub sha256 : Bytes → Bytes

unfoldable pub encoded_text : Option Bytes → Io Bytes
encoded_text none = throw (message "json")
encoded_text (some b) = pure b

unfoldable pub key_pair : Option (Bytes × Bytes) → Io (Bytes × Bytes)
key_pair none = throw (message "key")
key_pair (some k) = pure k

-- hashFile
unfoldable pub hash_file : (Bytes → Bytes) → FilePath → Io Bytes
hash_file sha256 p = do b ← read_file p; pure (encode_hex (sha256 b))

abbrev pub sig_path : FilePath → FilePath
sig_path p = suffixed p (codes ".sig")

module _ (signer : Signer) where
  open signer use {sign, generate, json_of_cert, json_of_revocation, encode_base64, stamp}

  -- The private key of a file, which has 64 bytes.
  pub private_key : FilePath → Io Bytes
  private_key p = do
    key ← read_file p
    if length key == 64 then pure key else throw (message "private key must be 64 bytes")

  pub new_pair : Io (Bytes × Bytes)
  new_pair = fresh >>= λ n. key_pair (generate n)

  abbrev pub new_cert : ℤ → ℤ → ℕ → Bytes → SigningCert
  new_cert version validity now public = record {
    version = version;
    signing_pubkey = encode_base64 public;
    issued_at = stamp now (pos 0);
    not_after = stamp now validity;
  }

  -- IssueCert
  unfoldable pub issue_cert : FilePath → FilePath → FilePath → ℤ → ℤ → ℕ → Io (Unit {0})
  unfolding private_key new_pair
  issue_cert root_path cert_path key_path version validity now = do
    root ← private_key root_path
    pair ← new_pair
    b ← encoded_text (json_of_cert (new_cert version validity now pair.0))
    write_new cert_path b
    write_new (sig_path cert_path) (sign root b)
    write_new key_path pair.1

  -- Revoke
  unfoldable pub revoke : FilePath → FilePath → ℤ → List ℤ → ℕ → Io (Unit {0})
  unfolding private_key
  revoke root_path out_path min_version versions now = do
    root ← private_key root_path
    b ← encoded_text (
        json_of_revocation (record {
          min_cert_version = min_version;
          revoked = versions;
          updated_at = stamp now (pos 0);
        }))
    write_new out_path b
    write_new (sig_path out_path) (sign root b)

  -- GenerateKeyFiles
  unfoldable pub generate_key_files : FilePath → FilePath → Io (Unit {0})
  unfolding new_pair
  generate_key_files priv_path pub_path = do
    pair ← new_pair
    write_new priv_path pair.1
    write_new pub_path pair.0

  -- SignManifest
  unfoldable pub sign_manifest : FilePath → FilePath → Io FilePath
  unfolding private_key
  sign_manifest priv_path manifest_path = do
    key ← private_key priv_path
    text ← read_file manifest_path
    write_new (sig_path manifest_path) (sign key text)
    pure (sig_path manifest_path)
