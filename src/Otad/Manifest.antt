-- ===== src/Otad/Manifest.antt =====
-- internal/otad/manifest.go: the description of an update, and its validation. The JSON of a manifest and
-- the tests on Unicode are parameters.
pub mod Valid
use atom_loops.Prelude.{
  ℕ, Bool, true, false, not, ◌&&◌, ◌||◌, Option, none, some, List, [], ◌∷◌, length, ltb, String,
  any, ◌==◌, if◌then◌else◌,
}
use atom_loops.Prelude.Text.{Bytes, codes, is_empty, ◌=b◌, mem_bytes, trim_space}
use atom_loops.Prelude.Int.{ℤ}

pub record FirmwareBundleSpec : Type 0 where
  pub name : Bytes
  pub url : Bytes
  pub hash : Bytes
  pub verity_hash : Bytes
  pub hash_tree_url : Bytes
  pub hash_tree_hash : Bytes
  pub version : ℤ
  pub min_version : ℤ
  pub chips : List Bytes
  pub kernel_min : Bytes
  pub kernel_max : Bytes
  pub critical_devices : List Bytes

pub record Manifest : Type 0 where
  pub version : Bytes
  pub min_version : Bytes
  pub product_name : Bytes
  pub product_version : Bytes
  pub product_build : Bytes
  pub rootfs_url : Bytes
  pub rootfs_hash : Bytes
  pub rootfs_verity_hash : Bytes
  pub rootfs_hash_tree_url : Bytes
  pub rootfs_hash_tree_hash : Bytes
  pub kernelcache_url : Bytes
  pub kernelcache_hash : Bytes
  pub kernelcache_sig_url : Bytes
  pub kernelcache_sig_hash : Bytes
  pub kernel_release : Bytes
  pub loader_version : ℤ
  pub loader_url : Bytes
  pub loader_hash : Bytes
  pub loader_sig_url : Bytes
  pub loader_sig_hash : Bytes
  pub recovery_version : ℤ
  pub recovery_url : Bytes
  pub recovery_hash : Bytes
  pub recovery_sig_url : Bytes
  pub recovery_sig_hash : Bytes
  pub firmware_url : Bytes
  pub firmware_hash : Bytes
  pub firmware_verity_hash : Bytes
  pub firmware_version : ℤ
  pub firmware_min_version : ℤ
  pub firmware_hash_tree_url : Bytes
  pub firmware_hash_tree_hash : Bytes
  pub firmware_bundles : List FirmwareBundleSpec

default_bundle : Manifest → FirmwareBundleSpec
default_bundle m = record {
  name = codes "default";
  url = m.firmware_url;
  hash = m.firmware_hash;
  verity_hash = m.firmware_verity_hash;
  hash_tree_url = m.firmware_hash_tree_url;
  hash_tree_hash = m.firmware_hash_tree_hash;
  version = m.firmware_version;
  min_version = m.firmware_min_version;
  chips = [];
  kernel_min = [];
  kernel_max = [];
  critical_devices = [];
}

bundles_or : List FirmwareBundleSpec → Manifest → List FirmwareBundleSpec
bundles_or (b ∷ bs) m = b ∷ bs
bundles_or [] m = if not (is_empty m.firmware_url) then default_bundle m ∷ [] else []

-- FirmwareBundleList
unfoldable pub firmware_bundle_list : Manifest → List FirmwareBundleSpec
unfolding bundles_or default_bundle
firmware_bundle_list m = bundles_or m.firmware_bundles m

-- HasFirmware
unfoldable pub has_firmware : Manifest → Bool
has_firmware m = ltb 0 (length (firmware_bundle_list m))

-- What the JSON library and the Unicode tables tell of the bytes of a manifest: whether the bytes are
-- UTF-8, the manifest that they decode to, whether a key that folds to the given one has the value
-- `null`, and whether a text holds a control, format or separator character.
pub record Decoder : Type 0 where
  pub valid_utf8 : Bytes → Bool
  pub decode : Bytes → Option Manifest
  pub null_field : Bytes → Bytes → Bool
  pub has_control : Bytes → Bool

-- The checks on one of the product fields.
field_is_bad : Decoder → Bytes → Bytes → Bytes → Bool
field_is_bad dec b name value =
    dec.null_field b name
    || (not (is_empty value)
        && (ltb 128 (length value) || not (trim_space value =b value) || dec.has_control value))

-- The case that refuses a bundle, if there is one; `seen` are the names before it.
bundle_is_bad : List Bytes → FirmwareBundleSpec → Bool
bundle_is_bad seen fw =
    is_empty fw.name
    || mem_bytes fw.name seen
    || is_empty fw.url
    || is_empty fw.hash
    || (not (is_empty fw.verity_hash) && (is_empty fw.hash_tree_url || is_empty fw.hash_tree_hash))

bundles_are_good : List Bytes → List FirmwareBundleSpec → Bool
bundles_are_good seen [] = true
bundles_are_good seen (fw ∷ fws) =
    let rest = bundles_are_good (fw.name ∷ seen) fws in
    if bundle_is_bad seen fw then false else rest

core_is_bad : Manifest → Bool
core_is_bad m =
    is_empty m.version
    || is_empty m.rootfs_url
    || is_empty m.rootfs_hash
    || is_empty m.kernelcache_url
    || is_empty m.kernelcache_hash

fields_are_bad : Decoder → Bytes → Manifest → Bool
fields_are_bad dec b m =
    field_is_bad dec b (codes "product_name") m.product_name
    || field_is_bad dec b (codes "product_version") m.product_version
    || field_is_bad dec b (codes "product_build") m.product_build

checked : Decoder → Bytes → Option Manifest → Option Manifest
checked dec b none = none
checked dec b (some m) =
    if core_is_bad m
    then none
    else (if fields_are_bad dec b m
        then none
        else (if bundles_are_good [] (firmware_bundle_list m) then some m else none))

-- ParseManifest; `none` stands for its errors.
unfoldable pub parse_manifest : Decoder → Bytes → Option Manifest
unfolding checked core_is_bad fields_are_bad field_is_bad bundles_are_good bundle_is_bad
parse_manifest dec b = if not (dec.valid_utf8 b) then none else checked dec b (dec.decode b)
