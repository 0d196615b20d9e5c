-- ===== src/Otad/Trusted/Chain.antt =====
-- What stands behind a manifest that staging goes on with.
use atom_loops.Prelude.{◌≡◌, refl, Bool, true, false, Option, none, some, ℕ, arith, if◌then◌else◌}
use atom_loops.Prelude.Text.{Bytes, is_empty}
use atom_loops.Prelude.Int.{ℤ}
use atom_loops.Prelude.Hex.{encode_hex, equal_fold}
use atom_loops.System.Io.{Error, message, pure, throw}
use atom_loops.System.Returns.{
  Returns, Returns-pure, Returns-throw, Returns-bind, Returns-bind_with,
}
use atom_loops.Trust.{Checked, ok, refused, verify, verify_cert, check_revocation}
use atom_loops.Otad.Manifest.{Manifest, parse_manifest}
use atom_loops.Otad.Outside.{Outside}
use atom_loops.Otad.Trusted.{
  VerifiedManifest, fetch_verified_manifest, certified, admitted, parsed_manifest, check_revoked,
  digest_is_expected,
}

-- A revocation list that the root key signed lets the version pass.
abbrev pub Unrevoked : Outside → Bytes → ℤ → Type 0
Unrevoked ext root v =
    (list : Bytes) × (sig : Bytes) × (check_revocation ext.crypto list sig root v ≡ ok tt)

-- The chain of trust behind the manifest.
pub record IsTrusted (ext : Outside) (root revocation_url expected : Bytes) (vm : VerifiedManifest)
    : Type 0 where
  pub key : Bytes
  pub version : ℤ
  pub vouched : verify_cert ext.crypto vm.cert vm.cert_sig root ext.now ≡ ok (key, version)
  pub unrevoked : is_empty revocation_url ≡ false → Unrevoked ext root version
  pub signed : verify ext.crypto vm.text vm.sig key ≡ true
  pub expected_text :
      is_empty expected ≡ false → equal_fold (encode_hex (ext.sha256 vm.text)) expected ≡ true
  pub parsed : parse_manifest ext.decoder vm.text ≡ some vm.manifest

pub certified_lem : (c : Checked (Bytes × ℤ)) → Returns (λ r. c ≡ ok r) (certified c)
unfolding certified
certified_lem (ok r) = Returns-pure (λ s. ok r ≡ ok s) r refl
certified_lem (refused e) = Returns-throw (λ s. refused e ≡ ok s) _

not_revoked_lem : (c : Checked (Unit {0})) → Returns (λ r. c ≡ ok tt) (admitted c)
unfolding admitted
not_revoked_lem (ok r) = Returns-pure (λ s. ok r ≡ ok tt) r refl
not_revoked_lem (refused e) = Returns-throw (λ s. refused e ≡ ok tt) _

pub parsed_lem : (o : Option Manifest) → Returns (λ m. o ≡ some m) (parsed_manifest o)
unfolding parsed_manifest
parsed_lem none = Returns-throw (λ m. none ≡ some m) _
parsed_lem (some m) = Returns-pure (λ n. some m ≡ some n) m refl

-- A test that the sequence goes past only where it holds.
pub guard_lem : (b : Bool) (e : Error) → Returns (λ _. b ≡ true) (if b then pure tt else throw e)
guard_lem true e = Returns-pure (λ _. true ≡ true) tt refl
guard_lem false e = Returns-throw (λ _. false ≡ true) e

module _ (ext : Outside) (root revocation_url expected : Bytes) where
  revoked_lem :
      (n : ℕ) (v : ℤ)
      → Returns (λ _. Unrevoked ext root v) (check_revoked ext n revocation_url root v)
  unfolding check_revoked
  revoked_lem n v = Returns-bind _ _ _ λ list. Returns-bind _ _ _ λ sig. record {
    at = λ w a e.
        (list, sig, (not_revoked_lem (check_revocation ext.crypto list sig root v)).at w a e);
  }

  revocation_lem :
      (n : ℕ) (v : ℤ) (b : Bool)
      → Returns
          (λ _. b ≡ false → Unrevoked ext root v)
          (if b then pure tt else check_revoked ext n revocation_url root v)
  revocation_lem n v true = Returns-pure (λ _. true ≡ false → Unrevoked ext root v) tt (λ h. cc)
  revocation_lem n v false = record { at = λ w a e h. (revoked_lem n v).at w a e }

  digest_lem :
      (text : Bytes)
      → Returns
          (λ _.
            is_empty expected ≡ false → equal_fold (encode_hex (ext.sha256 text)) expected ≡ true)
          (if digest_is_expected ext text expected
            then pure tt
            else throw (message "stage: manifest changed"))
  unfolding digest_is_expected
  digest_lem text = record {
    at = λ w a e h.
        let g = (guard_lem (digest_is_expected ext text expected) _).at w a e in ground arith;
  }

  -- A manifest that fetchVerifiedManifest returns is what its bytes parse to; the bytes are signed by a key
  -- that a certificate vouches for, which the root key signed and which has not run out; where a revocation
  -- list is asked for, one that the root key signed lets the certificate pass; and where a digest is
  -- expected, the bytes have it.
  pub fetch_verified_manifest-IsTrusted :
      (n : ℕ) (url : Bytes)
      → Returns
          (IsTrusted ext root revocation_url expected)
          (fetch_verified_manifest ext n url revocation_url root expected)
  unfolding fetch_verified_manifest
  fetch_verified_manifest-IsTrusted n url = Returns-bind _ _ _ λ text. Returns-bind _ _ _ λ sig.
      Returns-bind _ _ _ λ cert. Returns-bind _ _ _ λ cert_sig.
        Returns-bind_with _ _ (certified_lem (verify_cert ext.crypto cert cert_sig root ext.now))
          λ key vouched.
            Returns-bind_with _ _ (revocation_lem n key.1 (is_empty revocation_url)) λ _ unrevoked.
              Returns-bind_with _ _ (guard_lem (verify ext.crypto text sig key.0) _) λ _ signed.
                Returns-bind_with _ _ (digest_lem text) λ _ expected_text.
                  Returns-bind_with _ _ (parsed_lem (parse_manifest ext.decoder text)) λ m parsed.
                    Returns-pure (IsTrusted ext root revocation_url expected) _ (record {
                      key = key.0;
                      version = key.1;
                      vouched = vouched;
                      unrevoked = unrevoked;
                      signed = signed;
                      expected_text = expected_text;
                      parsed = parsed;
                    })
