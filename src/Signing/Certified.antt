-- ===== src/Signing/Certified.antt =====
-- A certificate that the release side issues is one that the device accepts.
use atom_loops.Prelude.{◌≡◌, refl, ℕ, Bool, true, false, some, ◌++◌, ◌==◌, length, if◌then◌else◌}
use atom_loops.Prelude.Text.{Bytes, codes, is_empty}
use atom_loops.Prelude.TextLaws.{longer-ne}
use atom_loops.Prelude.Int.{ℤ}
use atom_loops.System.Files.{FilePath, join, Files, content_at, ◌=p◌, join-ne}
use atom_loops.System.Io.{write_new}
use atom_loops.System.Triple.{Triple, Triple-bind, Triple-weaken}
use atom_loops.Trust.{Crypto, SigningCert, Checked, ok, verify, verify_cert}
use atom_loops.Signing.{Signer, new_cert, sig_path, issue_cert}
use atom_loops.Signing.Written.{
  Anything, written_lem, encoded_lem, Triple-pair, Triple-with, beside_lem, private_lem, pair_lem,
}

-- The files of a certificate that the device takes for one of the root key.
pub record Issued (signer : Signer) (crypto : Crypto) (root_public : Bytes) (later : ℕ)
    (version : ℤ) (cert_path key_path : FilePath) (f : Files) : Type 0 where
  pub cert : Bytes
  pub sig : Bytes
  pub keys : Bytes × Bytes
  pub round : ℕ
  pub generated : signer.generate round ≡ some keys
  pub cert_is : content_at f cert_path ≡ some cert
  pub sig_is : content_at f (sig_path cert_path) ≡ some sig
  pub key_is : content_at f key_path ≡ some keys.1
  pub accepted : verify_cert crypto cert sig root_public later ≡ ok (keys.0, version)

module _ (signer : Signer) (crypto : Crypto) (root root_public : Bytes) (validity : ℤ)
    (now later : ℕ) (signs : (b : Bytes) → verify crypto b (signer.sign root b) root_public ≡ true)
    (decodes : (c : SigningCert) (b : Bytes)
      → signer.json_of_cert c ≡ some b
      → crypto.cert_of_json b ≡ some c)
    (base64 : (b : Bytes) → crypto.decode_base64 (signer.encode_base64 b) ≡ some b)
    (sized : (n : ℕ) (k : Bytes × Bytes) → signer.generate n ≡ some k → length k.0 == 32 ≡ true)
    (unexpired : crypto.expired (signer.stamp now validity) later ≡ some false) where
  accepted_lem :
      (version : ℤ) (n : ℕ) (k : Bytes × Bytes) (b : Bytes)
      → signer.generate n ≡ some k
      → signer.json_of_cert (new_cert signer version validity now k.0) ≡ some b
      → verify_cert crypto b (signer.sign root b) root_public later ≡ ok (k.0, version)
  unfolding verify_cert
  accepted_lem version n k b g j =
      rw (signs b, decodes _ b j, base64 k.0, sized n k g, unexpired)
        (go (is_empty (signer.stamp now validity)))
    where
      go : {r : Checked (Bytes × ℤ)} (t : Bool) → (if t then r else r) ≡ r
      go true = refl
      go false = refl

  module _ (root_path : FilePath) (d n e k : Bytes) (version : ℤ)
      (key_cert : join e k =p join d n ≡ false)
      (key_sig : join e k =p sig_path (join d n) ≡ false) where
    abbrev cert_path : FilePath
    cert_path = join d n

    abbrev key_path : FilePath
    key_path = join e k

    abbrev Stored : Bytes → Bytes → Files → Type 0
    Stored b s f = (content_at f cert_path ≡ some b) × (content_at f (sig_path cert_path) ≡ some s)

    sig_cert : sig_path cert_path =p cert_path ≡ false
    sig_cert = join-ne d (n ++ codes ".sig") d n (longer-ne n b'.' (codes "sig"))

    pair_written :
        (b s : Bytes)
        → Triple
            (λ f. content_at f cert_path ≡ some b)
            (write_new (sig_path cert_path) s)
            Anything
            (λ _ f. Stored b s f)
    pair_written b s =
        Triple-weaken (λ f h. (h, tt)) (λ f h. tt) (λ _ f h. h)
          (Triple-pair _ _ _ _ (beside_lem cert_path (sig_path cert_path) s b sig_cert refl)
            (written_lem (sig_path cert_path) s))

    all_written :
        (b s c : Bytes)
        → Triple
            (Stored b s)
            (write_new key_path c)
            Anything
            (λ _ f. Stored b s f × (content_at f key_path ≡ some c))
    all_written b s c =
        Triple-weaken (λ f h. ((h.0, h.1), tt)) (λ f h. tt) (λ _ f h. h)
          (Triple-pair _ _ _ _
            (Triple-pair _ _ _ _ (beside_lem cert_path key_path c b key_cert refl)
              (beside_lem (sig_path cert_path) key_path c s key_sig refl))
            (written_lem key_path c))

    -- With the private root key in its file, a certificate that is issued is accepted on the device: its
    -- file, the signature beside it and the key file hold a certificate, a signature and the private key of
    -- a new pair, for which VerifyCert under the public root key returns the public key of the pair and the
    -- version. The signature scheme accepts what the root key signs, JSON and base64 are read back as they
    -- were written, a public key has 32 bytes, the certificate has not run out at that time, and the key is
    -- not written over the certificate or its signature.
    pub issue_cert-Issued :
        Triple
          (λ f. content_at f root_path ≡ some root)
          (issue_cert signer root_path cert_path key_path version validity now)
          (λ f. Unit)
          (λ _ f. Issued signer crypto root_public later version cert_path key_path f)
    unfolding issue_cert
    issue_cert-Issued = Triple-bind _ (private_lem signer root_path root) λ r. Triple-with λ same.
        Triple-bind _ (pair_lem signer) λ pair. Triple-with λ g. Triple-bind _ (encoded_lem _) λ b.
          Triple-with λ j. rw same (
            Triple-bind _ (written_lem cert_path b) λ _.
              Triple-bind _ (pair_written b (signer.sign root b)) λ _.
                Triple-weaken (λ f h. h) (λ f h. tt)
                  (λ _ f h. record {
                    cert = b;
                    sig = signer.sign root b;
                    keys = pair;
                    round = g.0;
                    generated = g.1;
                    cert_is = h.0.0;
                    sig_is = h.0.1;
                    key_is = h.1;
                    accepted = accepted_lem version g.0 pair b g.1 j;
                  })
                  (all_written b (signer.sign root b) pair.1))
