-- ===== src/Otad/Anchor/Vouched.antt =====
-- What an anchor that verifies says of a bundle.
use atom_loops.Prelude.{
  ◌≡◌, ◌⊎◌, refl, true, false, Option, none, some, List, [], ◌∷◌, arith, ℕ, Bool-cases, inl, inr,
}
use atom_loops.Prelude.Text.{Bytes, is_empty, ◌=b◌, =b_iff}
use atom_loops.Prelude.Int.{ℤ}
use atom_loops.System.Returns.{Returns, Returns-pure, Returns-throw, Returns-if}
use atom_loops.System.Files.{Files, content_at}
use atom_loops.System.Io.{World, done}
use atom_loops.System.Triple.{Keeps}
use atom_loops.System.Keeps.{Keeps-pure, Keeps-throw, Keeps-if, Keeps-guard}
use atom_loops.System.Finds.{Finds, Finds-read, Finds-label, Finds-bind, Finds-Returns, Finds-done}
use atom_loops.Trust.{Crypto, Checked, refused, ok, verify, verify_cert}
use atom_loops.Otad.Manifest.{
  FirmwareBundleSpec, Manifest, Decoder, firmware_bundle_list, parse_manifest,
}
use atom_loops.Otad.Trusted.Chain.{certified_lem, parsed_lem, guard_lem}
use atom_loops.Otad.Trusted.{certified, parsed_manifest}
use atom_loops.Otad.Anchor.{
  anchor_path, fw_cert, fw_manifest, json_ext, sig_ext, find_bundle, with_verity,
  verified_firmware_bundle,
}

-- The bundle is one of the list.
abbrev pub Among : FirmwareBundleSpec → List FirmwareBundleSpec → Type 0
Among fw [] = ⊥
Among fw (g ∷ fws) = (g ≡ fw) ⊎ Among fw fws

-- The chain from the root key to the bundle, over the four files of the anchor in the directory and slot.
pub record IsVouchedFor (crypto : Crypto) (decoder : Decoder) (root : Bytes) (now : ℕ) (f : Files)
    (dir slot bundle : Bytes) (fw : FirmwareBundleSpec) : Type 0 where
  pub cert : Bytes
  pub cert_sig : Bytes
  pub text : Bytes
  pub sig : Bytes
  pub cert_file : content_at f (anchor_path dir fw_cert slot json_ext) ≡ some cert
  pub cert_sig_file : content_at f (anchor_path dir fw_cert slot sig_ext) ≡ some cert_sig
  pub text_file : content_at f (anchor_path dir fw_manifest slot json_ext) ≡ some text
  pub sig_file : content_at f (anchor_path dir fw_manifest slot sig_ext) ≡ some sig
  pub key : Bytes
  pub version : ℤ
  pub vouched : verify_cert crypto cert cert_sig root now ≡ ok (key, version)
  pub signed : verify crypto text sig key ≡ true
  pub manifest : Manifest
  pub parsed : parse_manifest decoder text ≡ some manifest
  pub among : Among fw (firmware_bundle_list manifest)
  pub named : fw.name ≡ bundle
  pub verity : is_empty fw.verity_hash ≡ false

find_bundle_lem :
    (name : Bytes) (fws : List FirmwareBundleSpec) (fw : FirmwareBundleSpec)
    → find_bundle name fws ≡ some fw
    → Among fw fws × (fw.name ≡ name)
unfolding find_bundle
find_bundle_lem name [] fw h = cc
find_bundle_lem name (g ∷ fws) fw h = elim (Bool-cases (g.name =b name)) [
  | inl e ↦ let q : g ≡ fw = ground (arith) in (inl q, rw (← q) ((=b_iff g.name name).0 e))
  | inr e ↦ let r = find_bundle_lem name fws fw (ground arith) in (inr r.0, r.1)
]

with_verity_lem :
    (o : Option FirmwareBundleSpec)
    → Returns (λ fw. (o ≡ some fw) × (is_empty fw.verity_hash ≡ false)) (with_verity o)
unfolding with_verity
with_verity_lem none = Returns-throw _ _
with_verity_lem (some fw) =
    Returns-if (λ g. (some fw ≡ some g) × (is_empty g.verity_hash ≡ false))
      (is_empty fw.verity_hash) _ _ (λ e. Returns-throw _ _)
      (λ e. Returns-pure (λ g. (some fw ≡ some g) × (is_empty g.verity_hash ≡ false)) fw (refl, e))

module _ (P : Files → Type 0) where
  certified-Keeps : (c : Checked (Bytes × ℤ)) → Keeps P (certified c)
  unfolding certified
  certified-Keeps (ok r) = Keeps-pure P r
  certified-Keeps (refused e) = Keeps-throw P _

  parsed-Keeps : (o : Option Manifest) → Keeps P (parsed_manifest o)
  unfolding parsed_manifest
  parsed-Keeps none = Keeps-throw P _
  parsed-Keeps (some m) = Keeps-pure P m

  with_verity-Keeps : (o : Option FirmwareBundleSpec) → Keeps P (with_verity o)
  unfolding with_verity
  with_verity-Keeps none = Keeps-throw P _
  with_verity-Keeps (some fw) =
      Keeps-if P (is_empty fw.verity_hash) (Keeps-throw P _) (Keeps-pure P fw)

module _ (crypto : Crypto) (decoder : Decoder) (dir slot root : Bytes) (now : ℕ) (f : Files) where
  vouched_lem :
      (bundle : Bytes)
      → Finds f
          (IsVouchedFor crypto decoder root now f dir slot bundle)
          (verified_firmware_bundle crypto decoder dir slot root now bundle)
  unfolding verified_firmware_bundle
  vouched_lem bundle = Finds-bind f _ (Finds-label f _ (Finds-read f _)) λ cert cert_file.
      Finds-bind f _ (Finds-label f _ (Finds-read f _)) λ cert_sig cert_sig_file.
        Finds-bind f _
          (Finds-label f _ (
            Finds-Returns f (certified-Keeps _ (verify_cert crypto cert cert_sig root now))
              (certified_lem (verify_cert crypto cert cert_sig root now))))
          λ key vouched. Finds-bind f _ (Finds-label f _ (Finds-read f _)) λ text text_file.
            Finds-bind f _ (Finds-label f _ (Finds-read f _)) λ sig sig_file.
              Finds-bind f _
                (Finds-Returns f (Keeps-guard _ (verify crypto text sig key.0) _)
                  (guard_lem (verify crypto text sig key.0) _))
                λ _ signed.
                  Finds-bind f _
                    (Finds-Returns f (parsed-Keeps _ (parse_manifest decoder text))
                      (parsed_lem (parse_manifest decoder text)))
                    λ m parsed. Finds-Returns f (with_verity-Keeps _ _) (record {
                      at = λ w fw e.
                          let v =
                            (with_verity_lem (find_bundle bundle (firmware_bundle_list m))).at w fw
                              e in
                          let n = find_bundle_lem bundle (firmware_bundle_list m) fw v.0 in
                          record {
                            cert = cert;
                            cert_sig = cert_sig;
                            text = text;
                            sig = sig;
                            cert_file = cert_file;
                            cert_sig_file = cert_sig_file;
                            text_file = text_file;
                            sig_file = sig_file;
                            key = key.0;
                            version = key.1;
                            vouched = vouched;
                            signed = signed;
                            manifest = m;
                            parsed = parsed;
                            among = n.0;
                            named = n.1;
                            verity = v.1;
                          };
                    })

-- A bundle that VerifiedFirmwareBundle returns has the name that was asked for and a verity hash, and is
-- one of the bundles of the manifest in the anchor's files, which a key signed for which the certificate in
-- those files vouches; the root key signed it and it has not run out.
pub verified_firmware_bundle-IsVouchedFor :
    (crypto : Crypto) (decoder : Decoder) (dir slot root : Bytes) (now : ℕ) (bundle : Bytes)
    (w : World) (fw : FirmwareBundleSpec)
    → (verified_firmware_bundle crypto decoder dir slot root now bundle w).0 ≡ done fw
    → IsVouchedFor crypto decoder root now w.files dir slot bundle fw
verified_firmware_bundle-IsVouchedFor crypto decoder dir slot root now bundle w fw e =
    Finds-done w fw (vouched_lem crypto decoder dir slot root now w.files bundle) e
