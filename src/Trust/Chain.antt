-- ===== src/Trust/Chain.antt =====
-- What a certificate, a revocation list and a signature that pass say together.
use atom_loops.Prelude.{
  ℕ, Bool, true, false, ◌≡◌, Option, none, some, any, arith, length, refl, ◌↔◌, Bool-cases, inl,
  inr,
}
use atom_loops.Prelude.Text.{Bytes, is_empty}
use atom_loops.Prelude.Int.{ℤ, leb_ℤ, ◌=z◌}
use atom_loops.Trust.{
  SigningCert, Revocation, Crypto, ok, verify, verify_cert, check_revocation, check_cert, check_key,
  check_expiry, check_list,
}

-- The certificate behind a key.
pub record Vouched (c : Crypto) (cert sig root : Bytes) (now : ℕ) (key : Bytes) (v : ℤ)
    : Type 0 where
  pub parsed : SigningCert
  pub signed : verify c cert sig root ≡ true
  pub is_parsed : c.cert_of_json cert ≡ some parsed
  pub key_is : c.decode_base64 parsed.signing_pubkey ≡ some key
  pub key_size : length key ≡ 32
  pub version_is : parsed.version ≡ v
  pub in_time : is_empty parsed.not_after ≡ false → c.expired parsed.not_after now ≡ some false

expiry_lem :
    (e : Option Bool) (r q : Bytes × ℤ) → check_expiry e r ≡ ok q → (e ≡ some false) × (r ≡ q)
unfolding check_expiry
expiry_lem none r q h = cc
expiry_lem (some true) r q h = cc
expiry_lem (some false) r q h = (refl, cc)

key_lem :
    (c : Crypto) (cert sig root : Bytes) (s : SigningCert) (now : ℕ) (o : Option Bytes)
    (key : Bytes) (v : ℤ)
    → verify c cert sig root ≡ true
    → c.cert_of_json cert ≡ some s
    → c.decode_base64 s.signing_pubkey ≡ o
    → check_key c s now o ≡ ok (key, v)
    → Vouched c cert sig root now key v
unfolding check_key
key_lem c cert sig root s now none key v sg js d h = cc
key_lem c cert sig root s now (some k) key v sg js d h = record {
  parsed = s;
  signed = sg;
  is_parsed = js;
  key_is = ground (arith, expiry_lem (c.expired s.not_after now) (k, s.version) (key, v));
  key_size = ground (arith, expiry_lem (c.expired s.not_after now) (k, s.version) (key, v));
  version_is = ground (arith, expiry_lem (c.expired s.not_after now) (k, s.version) (key, v));
  in_time = ground (arith, expiry_lem (c.expired s.not_after now) (k, s.version) (key, v));
}

cert_lem :
    (c : Crypto) (cert sig root : Bytes) (now : ℕ) (o : Option SigningCert) (key : Bytes) (v : ℤ)
    → verify c cert sig root ≡ true
    → c.cert_of_json cert ≡ o
    → check_cert c now o ≡ ok (key, v)
    → Vouched c cert sig root now key v
unfolding check_cert
cert_lem c cert sig root now none key v sg js h = cc
cert_lem c cert sig root now (some s) key v sg js h =
    key_lem c cert sig root s now (c.decode_base64 s.signing_pubkey) key v sg js refl h

-- A key that VerifyCert returns stands in a certificate that the root key signed, has 32 bytes and the
-- certificate's version beside it, and the certificate has not run out where it names a date.
pub verify_cert-Vouched :
    (c : Crypto) (cert sig root : Bytes) (now : ℕ) (key : Bytes) (v : ℤ)
    → verify_cert c cert sig root now ≡ ok (key, v)
    → Vouched c cert sig root now key v
unfolding verify_cert
verify_cert-Vouched c cert sig root now key v h = elim (Bool-cases (verify c cert sig root)) [
  | inl sg ↦ cert_lem c cert sig root now (c.cert_of_json cert) key v sg refl (rw sg at h)
  | inr sg ↦ cc (rw sg at h)
]

-- The list lets the version through.
pub record Admits (c : Crypto) (text sig root : Bytes) (v : ℤ) (r : Revocation) : Type 0 where
  pub signed : verify c text sig root ≡ true
  pub is_parsed : c.revocation_of_json text ≡ some r
  pub above : leb_ℤ r.min_cert_version v ≡ true
  pub not_revoked : any (λ x. x =z v) r.revoked ≡ false

list_lem :
    (c : Crypto) (text sig root : Bytes) (v : ℤ) (o : Option Revocation)
    → verify c text sig root ≡ true
    → c.revocation_of_json text ≡ o
    → check_list o v ≡ ok tt
    → (r : Revocation) × Admits c text sig root v r
unfolding check_list
list_lem c text sig root v none sg js h = cc
list_lem c text sig root v (some r) sg js h = (r, ground arith)

-- A certificate version passes the revocation list exactly where the list is signed by the root key and
-- decodes, its minimum is not above the version, and it does not name the version.
pub check_revocation_iff :
    (c : Crypto) (text sig root : Bytes) (v : ℤ)
    → (check_revocation c text sig root v ≡ ok tt) ↔ ((r : Revocation) × Admits c text sig root v r)
unfolding check_revocation
check_revocation_iff c text sig root v = (
  λ h. elim (Bool-cases (verify c text sig root)) [
    | inl sg ↦ list_lem c text sig root v (c.revocation_of_json text) sg refl (rw sg at h)
    | inr sg ↦ cc (rw sg at h)
  ],
  λ p. let (r, a) = p in rw (a.signed, a.is_parsed) (ground (arith, a)),
)
