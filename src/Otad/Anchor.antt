-- ===== src/Otad/Anchor.antt =====
-- internal/otad/fwanchor.go: the files of one firmware bundle, and the signed manifest beside them that
-- the early boot verifies again.
pub mod Vouched
pub mod Torn
use atom_loops.Prelude.{
  ℕ, Bool, true, false, not, Option, none, some, List, [], ◌∷◌, ◌++◌, ◌==◌, if◌then◌else◌,
}
use atom_loops.Prelude.Text.{Bytes, codes, is_empty, ◌=b◌}
use atom_loops.Prelude.Int.{ℤ}
use atom_loops.System.Files.{FilePath, join, suffixed}
use atom_loops.System.Io.{
  Io, message, pure, throw, label, ignore, found, settle, read_file, write_new, rename, remove,
  ◌>>=◌, ◌>>◌,
}
use atom_loops.Trust.{Crypto, verify, verify_cert}
use atom_loops.Otad.Manifest.{
  FirmwareBundleSpec, Manifest, Decoder, firmware_bundle_list, parse_manifest,
}
use atom_loops.Otad.Trusted.{certified, parsed_manifest}

abbrev pub anchor_path : Bytes → Bytes → Bytes → Bytes → FilePath
anchor_path dir base slot ext = join dir (base ++ b'-' ∷ (slot ++ ext))

-- fwAnchorManifest, fwAnchorCert
abbrev pub fw_manifest : Bytes
fw_manifest = codes "fw-manifest"

abbrev pub fw_cert : Bytes
fw_cert = codes "fw-signing-cert"

abbrev pub json_ext : Bytes
json_ext = codes ".json"

abbrev pub sig_ext : Bytes
sig_ext = codes ".json.sig"

-- The four files of an anchor, in the order of the loops.
abbrev pub anchor_files : List (Bytes × Bytes)
anchor_files =
    (fw_manifest, json_ext) ∷ (fw_manifest, sig_ext) ∷ (fw_cert, json_ext) ∷ (fw_cert, sig_ext) ∷ []

unfoldable pub write_firmware_anchor : Bytes → Bytes → Bytes → Bytes → Bytes → Bytes → Io (Unit {0})
write_firmware_anchor dir slot manifest manifest_sig cert cert_sig = do
  settle
  write_new (anchor_path dir fw_manifest slot json_ext) manifest
  write_new (anchor_path dir fw_manifest slot sig_ext) manifest_sig
  write_new (anchor_path dir fw_cert slot json_ext) cert
  write_new (anchor_path dir fw_cert slot sig_ext) cert_sig

-- The loop of VerifiedFirmwareBundle over the bundles of the manifest.
find_bundle : Bytes → List FirmwareBundleSpec → Option FirmwareBundleSpec
find_bundle name [] = none
find_bundle name (fw ∷ fws) =
    let rest = find_bundle name fws in if fw.name =b name then some fw else rest

with_verity : Option FirmwareBundleSpec → Io FirmwareBundleSpec
with_verity none = throw (message "firmware anchor: manifest does not vouch for bundle")
with_verity (some fw) =
    if is_empty fw.verity_hash
    then throw (message "firmware anchor: bundle carries no verity hash")
    else pure fw

module _ (crypto : Crypto) (decoder : Decoder) (dir slot root : Bytes) (now : ℕ) where
  unfoldable pub verified_firmware_bundle : Bytes → Io FirmwareBundleSpec
  unfolding with_verity find_bundle
  verified_firmware_bundle bundle = do
    cert ←
        label "firmware anchor: no signing cert" (read_file (anchor_path dir fw_cert slot json_ext))
    cert_sig ←
        label "firmware anchor: no cert signature"
          (read_file (anchor_path dir fw_cert slot sig_ext))
    key ← label "firmware anchor" (certified (verify_cert crypto cert cert_sig root now))
    text ←
        label "firmware anchor: no manifest" (read_file (anchor_path dir fw_manifest slot json_ext))
    sig ←
        label "firmware anchor: no manifest signature"
          (read_file (anchor_path dir fw_manifest slot sig_ext))
    if verify crypto text sig key.0
        then pure tt
        else throw (message "firmware anchor: manifest signature invalid")
    m ← parsed_manifest (parse_manifest decoder text)
    with_verity (find_bundle bundle (firmware_bundle_list m))

  unfoldable pub verify_firmware_anchor : Bytes → Io (Bytes × ℤ)
  verify_firmware_anchor bundle = do
    fw ← verified_firmware_bundle bundle
    pure (fw.verity_hash, fw.version)

abbrev pub bak_of : FilePath → FilePath
bak_of p = suffixed p (codes ".bak")

-- The tail of a round of activation, where `next` is there.
put_active : FilePath → FilePath → Io (Unit {0})
put_active next active = do
  before ← found active
  if before then ignore (rename active (bak_of active)) else pure tt
  rename next active

abbrev pub next_slot : Bytes
next_slot = codes "next"

abbrev pub active_slot : Bytes
active_slot = codes "active"

activate_files : Bytes → List (Bytes × Bytes) → Io (Unit {0})
activate_files dir [] = pure tt
activate_files dir ((base, ext) ∷ fs) = do
  staged ← found (anchor_path dir base next_slot ext)
  if staged then pure tt else throw (message "activate firmware anchor: missing")
  put_active (anchor_path dir base next_slot ext) (anchor_path dir base active_slot ext)
  activate_files dir fs

unfoldable pub activate_firmware_anchor : Bytes → Io (Unit {0})
unfolding activate_files put_active
activate_firmware_anchor dir = activate_files dir anchor_files

-- One round of a rollback: without a backup there is nothing to restore.
restore_active : FilePath → Io (Unit {0})
restore_active active = do
  saved ← found (bak_of active)
  if saved then rename (bak_of active) active else pure tt

rollback_files : Bytes → List (Bytes × Bytes) → Io (Unit {0})
rollback_files dir [] = pure tt
rollback_files dir ((base, ext) ∷ fs) =
    restore_active (anchor_path dir base active_slot ext) >> rollback_files dir fs

unfoldable pub rollback_firmware_anchor : Bytes → Io (Unit {0})
unfolding rollback_files restore_active
rollback_firmware_anchor dir = rollback_files dir anchor_files

-- imagePath of `firmware.img` and of `firmware.hash`: the slot goes in front of the first dot.
before_dot : Bytes → Bytes
before_dot [] = []
before_dot (c ∷ s) = let rest = before_dot s in if c == b'.' then [] else c ∷ rest

from_dot : Bytes → Bytes
from_dot [] = []
from_dot (c ∷ s) = let rest = from_dot s in if c == b'.' then c ∷ s else rest

unfoldable pub image_path : Bytes → Bytes → Bytes → FilePath
unfolding before_dot from_dot
image_path dir slot name = join dir (before_dot name ++ b'-' ∷ (slot ++ from_dot name))

abbrev pub fw_img : Bytes
fw_img = codes "firmware.img"

abbrev pub fw_hash : Bytes
fw_hash = codes "firmware.hash"

activate_hash : Bytes → Bool → Io (Unit {0})
activate_hash dir false = pure tt
activate_hash dir true =
    put_active (image_path dir next_slot fw_hash) (image_path dir active_slot fw_hash)

-- The image must be there, the hash tree need not.
unfoldable pub activate_firmware_slot : Bytes → Io (Unit {0})
unfolding activate_hash put_active
activate_firmware_slot dir = do
  staged ← found (image_path dir next_slot fw_img)
  if staged then pure tt else throw (message "activate firmware slot: missing")
  put_active (image_path dir next_slot fw_img) (image_path dir active_slot fw_img)
  tree ← found (image_path dir next_slot fw_hash)
  activate_hash dir tree
  activate_firmware_anchor dir

unfoldable pub rollback_firmware_slot : Bytes → Io (Unit {0})
unfolding restore_active
rollback_firmware_slot dir = do
  rollback_firmware_anchor dir
  restore_active (image_path dir active_slot fw_img)
  restore_active (image_path dir active_slot fw_hash)

drop_baks : Bytes → List (Bytes × Bytes) → Io (Unit {0})
drop_baks dir [] = pure tt
drop_baks dir ((base, ext) ∷ fs) =
    ignore (remove (bak_of (anchor_path dir base active_slot ext))) >> drop_baks dir fs

unfoldable pub finalize_firmware_slot : Bytes → Io (Unit {0})
unfolding drop_baks
finalize_firmware_slot dir = do
  ignore (remove (bak_of (image_path dir active_slot fw_img)))
  ignore (remove (bak_of (image_path dir active_slot fw_hash)))
  drop_baks dir anchor_files
