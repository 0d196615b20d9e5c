-- ===== src/Signing/Release.antt =====
-- internal/signing/signing.go: the manifest of a release. An empty path stands for one that is not given.
use atom_loops.Prelude.{◌||◌, List, [], ◌∷◌, ◌++◌, if◌then◌else◌}
use atom_loops.Prelude.Text.{Bytes, is_empty}
use atom_loops.Prelude.Int.{ℤ, pos, ltb_ℤ}
use atom_loops.System.Files.{FilePath, join}
use atom_loops.System.Io.{Io, message, pure, throw, label, read_file, write_new, ◌>>=◌, ◌>>◌}
use atom_loops.Otad.Loader.{loader_version_of}
use atom_loops.Otad.Manifest.{FirmwareBundleSpec, Manifest, Decoder, parse_manifest}
use atom_loops.Otad.Trusted.{parsed_manifest}
use atom_loops.Signing.{Signer, encoded_text, hash_file}

pub record FirmwareSpec : Type 0 where
  pub name : Bytes
  pub version : ℤ
  pub min_version : ℤ
  pub image_file : Bytes
  pub image_url : Bytes
  pub verity_hash : Bytes
  pub hash_tree_file : Bytes
  pub hash_tree_url : Bytes
  pub chips : List Bytes
  pub kernel_min : Bytes
  pub kernel_max : Bytes
  pub critical_devices : List Bytes

pub record ReleaseSpec : Type 0 where
  pub version : Bytes
  pub min_version : Bytes
  pub product_name : Bytes
  pub product_version : Bytes
  pub product_build : Bytes
  pub rootfs_file : Bytes
  pub rootfs_url : Bytes
  pub rootfs_verity_hash : Bytes
  pub rootfs_hash_tree_file : Bytes
  pub rootfs_hash_tree_url : Bytes
  pub kernelcache_file : Bytes
  pub kernelcache_url : Bytes
  pub kernelcache_sig_file : Bytes
  pub kernelcache_sig_url : Bytes
  pub loader_file : Bytes
  pub loader_url : Bytes
  pub loader_sig_file : Bytes
  pub loader_sig_url : Bytes
  pub recovery_version : ℤ
  pub recovery_file : Bytes
  pub recovery_url : Bytes
  pub recovery_sig_file : Bytes
  pub recovery_sig_url : Bytes

-- A path of the command line.
abbrev given : Bytes → FilePath
given p = join [] p

-- The manifest of the release before the optional parts, with the four hashes.
core_manifest : ReleaseSpec → Bytes → Bytes → Bytes → Bytes → Manifest
core_manifest r rh rth kh ksh = record {
  version = r.version;
  min_version = r.min_version;
  product_name = r.product_name;
  product_version = r.product_version;
  product_build = r.product_build;
  rootfs_url = r.rootfs_url;
  rootfs_hash = rh;
  rootfs_verity_hash = r.rootfs_verity_hash;
  rootfs_hash_tree_url = r.rootfs_hash_tree_url;
  rootfs_hash_tree_hash = rth;
  kernelcache_url = r.kernelcache_url;
  kernelcache_hash = kh;
  kernelcache_sig_url = r.kernelcache_sig_url;
  kernelcache_sig_hash = ksh;
  kernel_release = [];
  loader_version = pos 0;
  loader_url = [];
  loader_hash = [];
  loader_sig_url = [];
  loader_sig_hash = [];
  recovery_version = pos 0;
  recovery_url = [];
  recovery_hash = [];
  recovery_sig_url = [];
  recovery_sig_hash = [];
  firmware_url = [];
  firmware_hash = [];
  firmware_verity_hash = [];
  firmware_version = pos 0;
  firmware_min_version = pos 0;
  firmware_hash_tree_url = [];
  firmware_hash_tree_hash = [];
  firmware_bundles = [];
}

check_release : ReleaseSpec → Io (Unit {0})
check_release r = do
  if is_empty r.rootfs_hash_tree_file || is_empty r.rootfs_hash_tree_url
      then throw (message "manifest: rootfs hash tree missing")
      else pure tt
  if is_empty r.kernelcache_sig_file || is_empty r.kernelcache_sig_url
      then throw (message "manifest: kernelcache signature missing")
      else pure tt
  if is_empty r.rootfs_verity_hash
      then throw (message "manifest: rootfs verity root hash missing")
      else pure tt

module _ (signer : Signer) (decoder : Decoder) where
  open signer use {json_of_manifest, sha256}

  hashed : Bytes → Io Bytes
  hashed p = label "hash" (hash_file sha256 (given p))

  add_loader : ReleaseSpec → Manifest → Io Manifest
  add_loader r m = do
    if is_empty r.loader_url || is_empty r.loader_sig_file || is_empty r.loader_sig_url
        then throw (message "manifest: boot loader needs its URL, signature and signature URL")
        else pure tt
    img ← label "read boot loader" (read_file (given r.loader_file))
    if ltb_ℤ (loader_version_of img) (pos 2)
        then throw (message "manifest: boot loader carries no version marker")
        else pure tt
    lh ← hashed r.loader_file
    lsh ← hashed r.loader_sig_file
    pure (record m {
      loader_version = loader_version_of img;
      loader_url = r.loader_url;
      loader_hash = lh;
      loader_sig_url = r.loader_sig_url;
      loader_sig_hash = lsh;
    })

  add_recovery : ReleaseSpec → Manifest → Io Manifest
  add_recovery r m = do
    if is_empty r.recovery_url
          || is_empty r.recovery_sig_file
          || is_empty r.recovery_sig_url
          || ltb_ℤ r.recovery_version (pos 1)
        then throw
            (message "manifest: recovery image needs its version, URL, signature and signature URL")
        else pure tt
    rch ← hashed r.recovery_file
    rcsh ← hashed r.recovery_sig_file
    pure (record m {
      recovery_version = r.recovery_version;
      recovery_url = r.recovery_url;
      recovery_hash = rch;
      recovery_sig_url = r.recovery_sig_url;
      recovery_sig_hash = rcsh;
    })

  -- The fields of a single bundle without a name.
  add_unnamed : FirmwareSpec → Manifest → Io Manifest
  add_unnamed f m = do
    fih ← hashed f.image_file
    fhh ← hashed f.hash_tree_file
    pure (record m {
      firmware_url = f.image_url;
      firmware_hash = fih;
      firmware_verity_hash = f.verity_hash;
      firmware_hash_tree_url = f.hash_tree_url;
      firmware_hash_tree_hash = fhh;
      firmware_version = f.version;
      firmware_min_version = f.min_version;
    })

  bundle_of : FirmwareSpec → Bytes → Bytes → FirmwareBundleSpec
  bundle_of f fih fhh = record {
    name = f.name;
    url = f.image_url;
    hash = fih;
    verity_hash = f.verity_hash;
    hash_tree_url = f.hash_tree_url;
    hash_tree_hash = fhh;
    version = f.version;
    min_version = f.min_version;
    chips = f.chips;
    kernel_min = f.kernel_min;
    kernel_max = f.kernel_max;
    critical_devices = f.critical_devices;
  }

  add_bundles : List FirmwareSpec → Manifest → Io Manifest
  add_bundles [] m = pure m
  add_bundles (f ∷ fs) m = do
    fih ← hashed f.image_file
    fhh ← hashed f.hash_tree_file
    add_bundles fs (record m { firmware_bundles = m.firmware_bundles ++ bundle_of f fih fhh ∷ [] })

  add_firmware : List FirmwareSpec → Manifest → Io Manifest
  add_firmware [] m = pure m
  add_firmware (f ∷ []) m = if is_empty f.name then add_unnamed f m else add_bundles (f ∷ []) m
  add_firmware (f ∷ g ∷ fs) m = add_bundles (f ∷ g ∷ fs) m

  -- What the optional parts start from.
  hashed_core : ReleaseSpec → Io Manifest
  hashed_core r = do
    check_release r
    rh ← hashed r.rootfs_file
    rth ← hashed r.rootfs_hash_tree_file
    kh ← hashed r.kernelcache_file
    ksh ← hashed r.kernelcache_sig_file
    pure (core_manifest r rh rth kh ksh)

  -- BuildManifest
  unfoldable pub build_manifest : FilePath → ReleaseSpec → List FirmwareSpec → Io FilePath
  unfolding hashed_core add_firmware add_bundles add_unnamed add_recovery add_loader hashed
      check_release core_manifest bundle_of
  build_manifest out r fw = do
    core ← hashed_core r
    m ← if is_empty r.loader_file then pure core else add_loader r core
    n ← if is_empty r.recovery_file then pure m else add_recovery r m
    o ← add_firmware fw n
    b ← encoded_text (json_of_manifest o)
    parsed_manifest (parse_manifest decoder b)
    write_new out b
    pure out
