-- ===== src/Otad/Trusted.antt =====
-- internal/otad/stage.go: the manifest of an update, fetched and verified; VerifySHA256 of manifest.go;
-- commitDir of durable.go.
pub mod Chain
pub mod Hashes
use Prim.Native.Nat.{bit_or, bit_xor}
use mathlib.Core.List.{reverse}
use atom_loops.Prelude.{
  ℕ, Bool, true, false, not, ◌||◌, Option, none, some, List, [], ◌∷◌, ◌++◌, length, ◌==◌,
  if◌then◌else◌,
}
use atom_loops.Prelude.Text.{Bytes, codes, is_empty}
use atom_loops.Prelude.Int.{ℤ}
use atom_loops.Prelude.Hex.{decode_hex, encode_hex, equal_fold}
use atom_loops.System.Files.{FilePath, work}
use atom_loops.System.Io.{Io, message, pure, throw, label, settle, read_file, ◌>>=◌, ◌>>◌}
use atom_loops.Trust.{Crypto, Checked, ok, refused, verify, verify_cert, check_revocation}
use atom_loops.Otad.Fetch.{fetch_to}
use atom_loops.Otad.Manifest.{Manifest, parse_manifest}
use atom_loops.Otad.Outside.{Outside}
use atom_loops.Otad.Slots.{sync_dir}

-- The loop of hashEqual over two hashes of one length.
or_diffs : ℕ → Bytes → Bytes → ℕ
or_diffs diff [] b = diff
or_diffs diff (x ∷ a) [] = diff
or_diffs diff (x ∷ a) (y ∷ b) = or_diffs (bit_or diff (bit_xor x y)) a b

unfoldable pub hash_equal : Bytes → Bytes → Bool
unfolding or_diffs
hash_equal a b = if not (length a == length b) then false else or_diffs 0 a b == 0

unfoldable pub check_hash : (Bytes → Bytes) → FilePath → Option Bytes → Io (Unit {0})
check_hash sha256 p none = throw (message "verify: bad expected hash")
check_hash sha256 p (some want) =
    if not (length want == 32) then throw (message "verify: bad expected hash") else (do
      b ← read_file p
      if hash_equal (sha256 b) want then pure tt else throw (message "verify: sha256 mismatch"))

-- VerifySHA256
unfoldable pub verify_sha256 : (Bytes → Bytes) → FilePath → Bytes → Io (Unit {0})
unfolding check_hash
verify_sha256 sha256 p want = check_hash sha256 p (decode_hex want)

-- VerifyManifestSig of internal/otad/fetch.go.
unfoldable pub verify_manifest_sig : Crypto → Bytes → Bytes → Bytes → Bool
verify_manifest_sig crypto text sig key =
    if not (length key == 32) || not (length sig == 64)
    then false
    else crypto.ed25519_verify text sig key

-- commitDir: syncDir, the open, syncfs, and the checkpoint, whose forgiven errors count as success.
unfoldable pub commit_dir : Io (Unit {0})
commit_dir = do sync_dir; settle; settle; settle

pub record VerifiedManifest : Type 0 where
  pub manifest : Manifest
  pub text : Bytes
  pub sig : Bytes
  pub cert : Bytes
  pub cert_sig : Bytes

-- The URL up to its last slash.
drop_name : Bytes → Bytes
drop_name [] = []
drop_name (c ∷ s) = if c == b'/' then c ∷ s else drop_name s

cert_url : Bytes → Bytes
cert_url url = reverse (drop_name (reverse url)) ++ codes "signing-cert.json"

unfoldable pub certified : Checked (Bytes × ℤ) → Io (Bytes × ℤ)
certified (ok r) = pure r
certified (refused e) = throw (message "trust")

admitted : Checked (Unit {0}) → Io (Unit {0})
admitted (ok r) = pure r
admitted (refused e) = throw (message "trust")

unfoldable pub parsed_manifest : Option Manifest → Io Manifest
parsed_manifest none = throw (message "manifest")
parsed_manifest (some m) = pure m

module _ (ext : Outside) where
  open ext use {net, crypto, decoder, sha256, now}

  -- The `fetch` of fetchVerifiedManifest, into the directory of that number.
  fetch_bytes : ℕ → Bytes → Bytes → Io Bytes
  fetch_bytes n url name = fetch_to net url (work n name) >> read_file (work n name)

  check_revoked : ℕ → Bytes → Bytes → ℤ → Io (Unit {0})
  check_revoked n url root v = do
    text ← label "stage: fetch revocation" (fetch_bytes n url (codes "revocation.json"))
    sig ← fetch_bytes n (url ++ codes ".sig") (codes "revocation.json.sig")
    admitted (check_revocation crypto text sig root v)

  -- The SHA256 that the update check recorded, if it is given.
  digest_is_expected : Bytes → Bytes → Bool
  digest_is_expected text expected =
      if is_empty expected then true else equal_fold (encode_hex (sha256 text)) expected

  unfoldable pub fetch_verified_manifest : ℕ → Bytes → Bytes → Bytes → Bytes → Io VerifiedManifest
  unfolding fetch_bytes check_revoked digest_is_expected certified admitted parsed_manifest cert_url
      drop_name
  fetch_verified_manifest n url revocation_url root expected = do
    text ← fetch_bytes n url (codes "manifest.json")
    sig ← fetch_bytes n (url ++ codes ".sig") (codes "manifest.json.sig")
    cert ←
        label "stage: fetch signing cert" (fetch_bytes n (cert_url url) (codes "signing-cert.json"))
    cert_sig ← fetch_bytes n (cert_url url ++ codes ".sig") (codes "signing-cert.json.sig")
    key ← certified (verify_cert crypto cert cert_sig root now)
    if is_empty revocation_url then pure tt else check_revoked n revocation_url root key.1
    if verify crypto text sig key.0
        then pure tt
        else throw (message "stage: manifest signature invalid")
    if digest_is_expected text expected then pure tt else throw (message "stage: manifest changed")
    m ← parsed_manifest (parse_manifest decoder text)
    pure (record { manifest = m; text = text; sig = sig; cert = cert; cert_sig = cert_sig })
