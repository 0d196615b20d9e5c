-- ===== src/Agent/Feed/Offer.antt =====
-- What stands behind an update that the agent reports as available.
use atom_loops.Prelude.{◌≡◌, refl, true, Option, some, Bool-cases, inl, inr}
use atom_loops.Prelude.Text.{Bytes, codes}
use atom_loops.Prelude.Int.{ℤ}
use atom_loops.Prelude.Hex.{encode_hex}
use atom_loops.System.Files.{FilePath}
use atom_loops.System.Returns.{
  Returns, Returns-pure, Returns-bind, Returns-bind_with, Returns-attempt, Returns-label,
}
use atom_loops.Trust.{ok, verify, verify_cert}
use atom_loops.Otad.Manifest.{Manifest, parse_manifest}
use atom_loops.Otad.Outside.{Outside}
use atom_loops.Otad.Trusted.Chain.{certified_lem, guard_lem, parsed_lem}
use atom_loops.Agent.Status.{Status, is_state}
use atom_loops.Agent.Feed.{Client, newer, verified_manifest, checked_status, failed_check, check}

-- The manifest and its bytes, behind the chain of trust.
pub record IsVerified (ext : Outside) (root : Bytes) (r : Manifest × Bytes) : Type 0 where
  pub text : Bytes
  pub sig : Bytes
  pub cert : Bytes
  pub cert_sig : Bytes
  pub key : Bytes
  pub version : ℤ
  pub vouched : verify_cert ext.crypto cert cert_sig root ext.now ≡ ok (key, version)
  pub signed : verify ext.crypto text sig key ≡ true
  pub parsed : parse_manifest ext.decoder text ≡ some r.0
  pub digest : r.1 ≡ encode_hex (ext.sha256 text)

-- The status is about that manifest, whose release is newer than the one installed.
pub record IsOffer (ext : Outside) (root : Bytes) (st : Status) : Type 0 where
  pub manifest : Manifest
  pub verified : IsVerified ext root (manifest, st.manifest_sha256)
  pub latest : st.latest ≡ manifest.version
  pub is_newer : newer st.latest st.current ≡ true

module _ (ext : Outside) (client : Client) (root : Bytes) where
  verified_manifest_lem :
      (feed : Bytes) → Returns (IsVerified ext root) (verified_manifest ext client root feed)
  unfolding verified_manifest
  verified_manifest_lem feed = Returns-bind _ _ _ λ cert. Returns-bind _ _ _ λ cert_sig.
      Returns-bind_with _ _
        (Returns-label _ "signing cert"
          (certified_lem (verify_cert ext.crypto cert cert_sig root ext.now)))
        λ key vouched. Returns-bind _ _ _ λ text. Returns-bind _ _ _ λ sig.
          Returns-bind_with _ _ (guard_lem (verify ext.crypto text sig key.0) _) λ _ signed.
            Returns-bind_with _ _ (parsed_lem (parse_manifest ext.decoder text)) λ m parsed.
              Returns-pure (IsVerified ext root) _ (record {
                text = text;
                sig = sig;
                cert = cert;
                cert_sig = cert_sig;
                key = key.0;
                version = key.1;
                vouched = vouched;
                signed = signed;
                parsed = parsed;
                digest = refl;
              })

  abbrev Offered : Status → Type 0
  Offered st = is_state (codes "available") st ≡ true → IsOffer ext root st

  checked_lem :
      (cur : Bytes) (r : Manifest × Bytes)
      → IsVerified ext root r
      → Offered (checked_status ext client cur r)
  unfolding checked_status
  checked_lem cur (m, digest) v h = elim (Bool-cases (newer m.version cur)) [
    | inl e ↦ record { manifest = m; verified = v; latest = refl; is_newer = e }
    | inr e ↦ absurd (let h' = rw e at h in cc)
  ]

  -- A check that reports an update as available names the release and the digest of a manifest that a key
  -- signed for which a certificate vouches that the root key signed and that has not run out, and the
  -- release is newer than the one it reports as installed.
  pub check-IsOffer :
      (feed current : Bytes) (wal : Option FilePath)
      → Returns
          (λ st. is_state (codes "available") st ≡ true → IsOffer ext root st)
          (check ext client root feed current wal)
  unfolding check failed_check
  check-IsOffer feed current wal = Returns-bind _ _ _ λ cur.
      Returns-attempt Offered _ _ (verified_manifest_lem feed)
        (λ r v. Returns-pure Offered _ (checked_lem cur r v))
        (λ e. Returns-pure Offered _ (λ h. cc))
