-- ===== src/Tests/Update.antt =====
-- The checks on an update.
use atom_loops.Prelude.{true, false, some, List, [], ◌∷◌, ◌++◌}
use atom_loops.Prelude.Text.{Bytes, codes}
use atom_loops.Prelude.Int.{pos}
use atom_loops.Otad.Manifest.{FirmwareBundleSpec, Manifest, Decoder}
use atom_loops.Trust.{Crypto}

abbrev pub gpu_bundle : FirmwareBundleSpec
gpu_bundle = record {
  name = codes "nvidia";
  url = codes "fw.erofs";
  hash = codes "00ff";
  verity_hash = [];
  hash_tree_url = [];
  hash_tree_hash = [];
  version = pos 2;
  min_version = pos 0;
  chips = codes "ad102" ∷ [];
  kernel_min = codes "6.6";
  kernel_max = codes "6.12";
  critical_devices = [];
}

abbrev pub update : Manifest
update = record {
  version = codes "rel2";
  min_version = [];
  product_name = [];
  product_version = [];
  product_build = [];
  rootfs_url = codes "r.erofs";
  rootfs_hash = codes "aa";
  rootfs_verity_hash = [];
  rootfs_hash_tree_url = [];
  rootfs_hash_tree_hash = [];
  kernelcache_url = codes "k.efi";
  kernelcache_hash = codes "bb";
  kernelcache_sig_url = [];
  kernelcache_sig_hash = [];
  kernel_release = codes "6.8.1";
  loader_version = pos 0;
  loader_url = [];
  loader_hash = [];
  loader_sig_url = [];
  loader_sig_hash = [];
  recovery_version = pos 0;
  recovery_url = [];
  recovery_hash = [];
  recovery_sig_url = [];
  recovery_sig_hash = [];
  firmware_url = [];
  firmware_hash = [];
  firmware_verity_hash = [];
  firmware_version = pos 0;
  firmware_min_version = pos 0;
  firmware_hash_tree_url = [];
  firmware_hash_tree_hash = [];
  firmware_bundles = gpu_bundle ∷ [];
}

abbrev pub one_text : Decoder
one_text = record {
  valid_utf8 = λ b. true;
  decode = λ b. some update;
  null_field = λ b name. false;
  has_control = λ v. false;
}

abbrev chips : List Bytes
chips = codes "ad102" ∷ []

abbrev pub key_bytes : Bytes
key_bytes = codes "0123456789abcdef0123456789abcdef"

abbrev pub sig_bytes : Bytes
sig_bytes = key_bytes ++ key_bytes

-- A scheme in which each signature is good, and each text holds one certificate and one list.
abbrev pub good_scheme : Crypto
good_scheme = record {
  ed25519_verify = λ text sig key. true;
  cert_of_json = λ b.
      some
        (record { version = pos 2; signing_pubkey = []; issued_at = []; not_after = codes "2030" });
  revocation_of_json =
      λ b. some (record { min_cert_version = pos 1; revoked = pos 3 ∷ []; updated_at = [] });
  decode_base64 = λ b. some key_bytes;
  expired = λ text now. some false;
}
