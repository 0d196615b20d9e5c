-- ===== src/Tests/Signing.antt =====
-- The release side with a small scheme.
use atom_loops.Prelude.{
  ◌≡◌, refl, ℕ, Bool, true, false, ◌&&◌, none, some, arith, length, ◌==◌, if◌then◌else◌,
}
use atom_loops.Prelude.Text.{Bytes, codes, ◌=b◌, =b_iff}
use atom_loops.Prelude.Int.{pos, ◌=z◌, =z_iff}
use atom_loops.System.Files.{FilePath, join, content_at}
use atom_loops.System.Triple.{Triple}
use atom_loops.Trust.{Crypto, SigningCert, verify}
use atom_loops.Signing.{Signer, issue_cert}
use atom_loops.Signing.Certified.{Issued, issue_cert-Issued}
use atom_loops.Tests.Update.{good_scheme, key_bytes, sig_bytes}

-- The one certificate that the scheme knows.
abbrev known_cert : SigningCert
known_cert = record {
  version = pos 2;
  signing_pubkey = key_bytes;
  issued_at = codes "2030";
  not_after = codes "2030";
}

abbrev is_known : SigningCert → Bool
is_known c =
    c.version =z pos 2
    && c.signing_pubkey =b key_bytes
    && c.issued_at =b codes "2030"
    && c.not_after =b codes "2030"

abbrev toy_signer : Signer
toy_signer = record {
  sign = λ key b. sig_bytes;
  generate = λ n. some (key_bytes, codes "private");
  json_of_cert = λ c. if is_known c then some (codes "cert") else none;
  json_of_revocation = λ r. none;
  json_of_manifest = λ m. none;
  encode_base64 = λ b. b;
  stamp = λ t d. codes "2030";
  sha256 = λ b. key_bytes;
}

abbrev toy_scheme : Crypto
toy_scheme = record good_scheme { cert_of_json = λ b. some known_cert; decode_base64 = λ b. some b }

known_lem : (c : SigningCert) → is_known c ≡ true → known_cert ≡ c
known_lem c h = ground (
  arith,
  =z_iff c.version (pos 2),
  =b_iff c.signing_pubkey key_bytes,
  =b_iff c.issued_at (codes "2030"),
  =b_iff c.not_after (codes "2030"),
)

decodes :
    (c : SigningCert) (b : Bytes)
    → (if is_known c then some (codes "cert") else none) ≡ some b
    → some known_cert ≡ some c
decodes c b = go (is_known c) (known_lem c)
  where
    go :
        (t : Bool)
        → (t ≡ true → known_cert ≡ c)
        → (if t then some (codes "cert") else none) ≡ some b
        → some known_cert ≡ some c
    go true k h = let e : known_cert ≡ c = k refl in cc
    go false k h = cc

signs : (b : Bytes) → verify toy_scheme b sig_bytes key_bytes ≡ true
unfolding verify
signs b = refl

sized :
    (n : ℕ) (k : Bytes × Bytes)
    → some (key_bytes, codes "private") ≡ some k
    → length k.0 == 32 ≡ true
sized n k h = let e : (key_bytes, codes "private") ≡ k = cc in rw (← e) refl

abbrev root_path : FilePath
root_path = join (codes "/keys") (codes "root")

issue_cert-Issued_example :
    Triple
      (λ f. content_at f root_path ≡ some sig_bytes)
      (issue_cert toy_signer root_path
        (join (codes "/out") (codes "cert.json"))
        (join (codes "/keys") (codes "signing"))
        (pos 2)
        (pos 9)
        0)
      (λ f. Unit)
      (λ _ f.
        Issued toy_signer toy_scheme key_bytes 5
          (pos 2)
          (join (codes "/out") (codes "cert.json"))
          (join (codes "/keys") (codes "signing"))
          f)
issue_cert-Issued_example =
    issue_cert-Issued toy_signer toy_scheme sig_bytes key_bytes (pos 9) 0 5 signs decodes
      (λ b. refl) sized refl root_path (codes "/out") (codes "cert.json") (codes "/keys")
      (codes "signing") (pos 2) refl refl
