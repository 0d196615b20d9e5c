-- ===== src/Trust.antt =====
-- internal/trust/trust.go: the root key vouches for a signing key, which signs manifests. The signature
-- scheme, the JSON and base64 decoders and the clock are parameters.
pub mod Chain
use atom_loops.Prelude.{
  ℕ, Bool, true, false, not, ◌||◌, Option, none, some, List, [], ◌∷◌, any, length, ◌==◌,
  if◌then◌else◌,
}
use atom_loops.Prelude.Text.{Bytes, is_empty}
use atom_loops.Prelude.Int.{ℤ, ltb_ℤ, ◌=z◌}

pub record SigningCert : Type 0 where
  pub version : ℤ
  pub signing_pubkey : Bytes
  pub issued_at : Bytes
  pub not_after : Bytes

pub record Revocation : Type 0 where
  pub min_cert_version : ℤ
  pub revoked : List ℤ
  pub updated_at : Bytes

-- `verify data sig pub` is ed25519.Verify, `expired text now` is now.After of the parsed time, `none`
-- where it does not parse.
pub record Crypto : Type 0 where
  pub ed25519_verify : Bytes → Bytes → Bytes → Bool
  pub cert_of_json : Bytes → Option SigningCert
  pub revocation_of_json : Bytes → Option Revocation
  pub decode_base64 : Bytes → Option Bytes
  pub expired : Bytes → ℕ → Option Bool

-- Verify: ed25519.PublicKeySize is 32, ed25519.SignatureSize is 64.
unfoldable pub verify : Crypto → Bytes → Bytes → Bytes → Bool
verify c text sig key =
    if not (length key == 32) || not (length sig == 64)
    then false
    else c.ed25519_verify text sig key

pub data TrustError : Type 0 where
  not_root_signed bad_json bad_pubkey bad_not_after cert_expired below_minimum revoked : TrustError

pub data Checked (A : Type 0) : Type 0 where
  ok : A → Checked A
  refused : TrustError → Checked A

check_expiry : Option Bool → Bytes × ℤ → Checked (Bytes × ℤ)
check_expiry none r = refused bad_not_after
check_expiry (some true) r = refused cert_expired
check_expiry (some false) r = ok r

check_key : Crypto → SigningCert → ℕ → Option Bytes → Checked (Bytes × ℤ)
check_key c cert now none = refused bad_pubkey
check_key c cert now (some key) =
    if not (length key == 32)
    then refused bad_pubkey
    else (if is_empty cert.not_after
        then ok (key, cert.version)
        else check_expiry (c.expired cert.not_after now) (key, cert.version))

check_cert : Crypto → ℕ → Option SigningCert → Checked (Bytes × ℤ)
check_cert c now none = refused bad_json
check_cert c now (some cert) = check_key c cert now (c.decode_base64 cert.signing_pubkey)

-- VerifyCert: the signing key and the version of the certificate.
unfoldable pub verify_cert : Crypto → Bytes → Bytes → Bytes → ℕ → Checked (Bytes × ℤ)
unfolding check_expiry check_key check_cert
verify_cert c cert sig root now =
    if not (verify c cert sig root)
    then refused not_root_signed
    else check_cert c now (c.cert_of_json cert)

check_list : Option Revocation → ℤ → Checked (Unit {0})
check_list none v = refused bad_json
check_list (some r) v =
    if ltb_ℤ v r.min_cert_version
    then refused below_minimum
    else (if any (λ x. x =z v) r.revoked then refused revoked else ok tt)

-- CheckRevocation
unfoldable pub check_revocation : Crypto → Bytes → Bytes → Bytes → ℤ → Checked (Unit {0})
unfolding check_list
check_revocation c text sig root v =
    if not (verify c text sig root)
    then refused not_root_signed
    else check_list (c.revocation_of_json text) v
