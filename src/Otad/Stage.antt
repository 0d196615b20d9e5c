-- ===== src/Otad/Stage.antt =====
-- internal/otad/stage.go: an update, from the signed manifest to the log that marks its candidate.
pub mod Artifacts
pub mod Accepted
pub mod Marked
use atom_loops.Prelude.{
  Bool, true, false, not, ◌&&◌, Option, none, some, List, [], ◌∷◌, ◌++◌, length, ltb, if◌then◌else◌,
}
use atom_loops.Prelude.Text.{Bytes, codes, is_empty}
use atom_loops.Prelude.Int.{ℤ}
use atom_loops.System.Files.{FilePath, join}
use atom_loops.System.Io.{
  Io, message, pure, throw, attempt, ignore, label, on_error, after, settle, remove, create_work,
  remove_work, ◌>>=◌, ◌>>◌,
}
use atom_loops.Deployment.State.{Deployment}
use atom_loops.Deployment.Transition.{deploy, deploy_firmware}
use atom_loops.Deployment.Wal.{load, save}
use atom_loops.Otad.Anchor.{
  fw_img, fw_hash, next_slot, image_path, write_firmware_anchor, activate_firmware_slot,
}
use atom_loops.Otad.Daemon.{sync_boot_state}
use atom_loops.Otad.Fetch.{fetch_to}
use atom_loops.Otad.Hardware.{detect_gpu_chips, coupled_kernel_check, matches_hardware}
use atom_loops.Otad.Loader.{cancel_loader_candidate}
use atom_loops.Otad.Manifest.{FirmwareBundleSpec, Manifest, firmware_bundle_list}
use atom_loops.Otad.Outside.{Outside}
use atom_loops.Otad.Promote.{promote_running_candidate}
use atom_loops.Otad.Slots.{StageDirs}
use atom_loops.Otad.Trusted.{VerifiedManifest, fetch_verified_manifest, verify_sha256, commit_dir}
use atom_loops.Otad.Version.{is_downgrade}

abbrev pub rootfs_image : StageDirs → FilePath
rootfs_image dirs = join dirs.rootfs_dir (codes "rootfs-next.erofs")

abbrev pub rootfs_tree : StageDirs → FilePath
rootfs_tree dirs = join dirs.rootfs_dir (codes "rootfs-next.hash")

abbrev pub kernel_image : StageDirs → FilePath
kernel_image dirs = join dirs.esp (codes "kernelcache-next.efi")

abbrev pub kernel_sig : StageDirs → FilePath
kernel_sig dirs = join dirs.esp (codes "kernelcache-next.efi.sig")

abbrev pub bundle_dir : StageDirs → FirmwareBundleSpec → Bytes
bundle_dir dirs fw = dirs.firmware_dir ++ b'/' ∷ fw.name

-- The bundles that the loop of stage does not skip.
unfoldable pub needed_bundles :
    List Bytes → Bytes → List FirmwareBundleSpec → List FirmwareBundleSpec
needed_bundles chips kernel [] = []
needed_bundles chips kernel (fw ∷ fws) =
    let rest = needed_bundles chips kernel fws in
    if matches_hardware fw chips kernel then fw ∷ rest else rest

-- The kernel that the update targets.
unfoldable pub target_kernel : Manifest → Bytes → Bytes
target_kernel m running = if is_empty m.kernel_release then running else m.kernel_release

unfoldable pub staged_bundles : Outside → Manifest → List FirmwareBundleSpec
staged_bundles ext m =
    needed_bundles (detect_gpu_chips ext.pci) (target_kernel m ext.kernel) (firmware_bundle_list m)

discard : FilePath → Io (Unit {0})
discard p = ignore (remove p)

-- The directory of the log, for a name of the program.
wal_dir : FilePath → Bytes
wal_dir (join d n) = if is_empty d then codes "." else d
wal_dir p = codes "/tmp"

-- What stage reports: the release, and the bundles that came with it.
pub record StageReport : Type 0 where
  pub version : Bytes
  pub bundles : List FirmwareBundleSpec

module _ (ext : Outside) (wal : FilePath) (dirs : StageDirs) where
  open ext use {net, json, sha256, pci, kernel}

  -- An artifact whose removal on a bad hash is all that is cleaned up.
  fetch_first : Bytes → Bytes → FilePath → Io (Unit {0})
  fetch_first url hash p = do fetch_to net url p; on_error (verify_sha256 sha256 p hash) (discard p)

  -- One beside it, with which the first goes as well.
  fetch_second : Bytes → Bytes → FilePath → FilePath → Io (Unit {0})
  fetch_second url hash first p = do
    on_error (fetch_to net url p) (discard first)
    on_error (verify_sha256 sha256 p hash) (discard first >> discard p)

  refuse_without : Bytes → FilePath → Io (Unit {0})
  refuse_without url p =
      if is_empty url then discard p >> throw (message "stage: refusing") else pure tt

  fetch_rootfs : Manifest → Io (Unit {0})
  fetch_rootfs m = do
    settle
    fetch_first m.rootfs_url m.rootfs_hash (rootfs_image dirs)
    refuse_without m.rootfs_hash_tree_url (rootfs_image dirs)
    fetch_second m.rootfs_hash_tree_url m.rootfs_hash_tree_hash (rootfs_image dirs)
        (rootfs_tree dirs)

  fetch_kernelcache : Manifest → Io (Unit {0})
  fetch_kernelcache m = do
    settle
    cancel_loader_candidate dirs
    fetch_first m.kernelcache_url m.kernelcache_hash (kernel_image dirs)
    refuse_without m.kernelcache_sig_url (kernel_image dirs)
    fetch_second m.kernelcache_sig_url m.kernelcache_sig_hash (kernel_image dirs) (kernel_sig dirs)

  fetch_tree : FirmwareBundleSpec → Bytes → Io (Unit {0})
  fetch_tree fw dir =
      if is_empty fw.verity_hash
      then pure tt
      else fetch_second fw.hash_tree_url fw.hash_tree_hash (image_path dir next_slot fw_img)
          (image_path dir next_slot fw_hash)

  -- One round of the loop over the bundles.
  fetch_bundle : VerifiedManifest → FirmwareBundleSpec → Io (Unit {0})
  fetch_bundle vm fw = do
    settle
    fetch_first fw.url fw.hash (image_path (bundle_dir dirs fw) next_slot fw_img)
    fetch_tree fw (bundle_dir dirs fw)
    on_error
        (label "stage: persist firmware anchor"
          (write_firmware_anchor (bundle_dir dirs fw) next_slot vm.text vm.sig vm.cert vm.cert_sig))
        (discard (image_path (bundle_dir dirs fw) next_slot fw_img))

  fetch_bundles : VerifiedManifest → List FirmwareBundleSpec → Io (Unit {0})
  fetch_bundles vm [] = pure tt
  fetch_bundles vm (fw ∷ fws) = fetch_bundle vm fw >> fetch_bundles vm fws

  -- Everything that stage brings onto the disk before it marks the candidate.
  unfoldable pub fetch_release : VerifiedManifest → Io (Unit {0})
  unfolding fetch_rootfs fetch_kernelcache fetch_bundles fetch_bundle fetch_tree fetch_first
      fetch_second refuse_without discard
  fetch_release vm = do
    fetch_rootfs vm.manifest
    fetch_kernelcache vm.manifest
    if ltb 0 (length (firmware_bundle_list vm.manifest)) && is_empty dirs.firmware_dir
        then throw (message "stage: manifest has a firmware track but no firmware dir configured")
        else pure tt
    fetch_bundles vm (staged_bundles ext vm.manifest)

  accepted_bundle : Deployment × Bool → Io Deployment
  accepted_bundle (d, true) = pure d
  accepted_bundle (d, false) =
      throw (message "stage: firmware bundle is below its anti-rollback floor")

  deploy_bundles : List FirmwareBundleSpec → Deployment → Io Deployment
  deploy_bundles [] d = pure d
  deploy_bundles (fw ∷ fws) d =
      accepted_bundle (deploy_firmware fw.name fw.version fw.verity_hash d) >>= deploy_bundles fws

  with_candidate : Manifest → Deployment → Deployment
  with_candidate m d =
      let e = deploy m.version d in
      record e { rootfs = record e.rootfs { pending_hash = m.rootfs_verity_hash } }

  unfoldable pub mark_candidate : Manifest → Io (Unit {0})
  unfolding with_candidate deploy_bundles accepted_bundle
  mark_candidate m = do
    d ← load json wal
    e ← deploy_bundles (staged_bundles ext m) (with_candidate m d)
    save json wal e

  -- The loop over the directories; one that cannot be looked at is skipped.
  commit_dirs : List Bytes → Io (Unit {0})
  commit_dirs [] = pure tt
  commit_dirs (d ∷ ds) =
      (if is_empty d
        then pure tt
        else attempt settle (λ _. label "stage: committing failed" commit_dir) (λ _. pure tt))
      >> commit_dirs ds

  activate_bundles : List FirmwareBundleSpec → Io (Unit {0})
  activate_bundles [] = pure tt
  activate_bundles (fw ∷ fws) =
      label "stage: activating firmware bundle failed" (activate_firmware_slot (bundle_dir dirs fw))
      >> activate_bundles fws

  -- What follows the marking.
  unfoldable pub arm_candidate : Manifest → Io StageReport
  unfolding commit_dirs activate_bundles wal_dir
  arm_candidate m = do
    commit_dirs (dirs.rootfs_dir ∷ dirs.firmware_dir ∷ wal_dir wal ∷ dirs.esp ∷ [])
    label "stage: arming boot-state failed" (sync_boot_state json wal dirs)
    activate_bundles (staged_bundles ext m)
    pure (record { version = m.version; bundles = staged_bundles ext m })

  -- stage, behind the manifest.
  unfoldable pub stage_verified : VerifiedManifest → Io StageReport
  stage_verified vm = do
    label "stage: promote the running candidate" (promote_running_candidate ext wal dirs)
    cur ← load json wal
    if is_downgrade vm.manifest.version cur.rootfs.current
        then throw (message "stage: below installed, refused (anti-rollback)")
        else pure tt
    if coupled_kernel_check vm.manifest kernel (detect_gpu_chips pci)
        then pure tt
        else throw (message "stage: coupled kernel update")
    fetch_release vm
    mark_candidate vm.manifest
    arm_candidate vm.manifest

  unfoldable pub stage_update : Bytes → Bytes → Bytes → Bytes → Io StageReport
  stage_update url revocation_url root expected = do
    n ← create_work
    after (fetch_verified_manifest ext n url revocation_url root expected >>= stage_verified)
        (remove_work n)

  -- Stage
  unfoldable pub stage : Bytes → Bytes → Bytes → Io StageReport
  stage url revocation_url root = stage_update url revocation_url root []

  -- StageExpectedManifest
  unfoldable pub stage_expected_manifest : Bytes → Bytes → Bytes → Bytes → Io StageReport
  stage_expected_manifest url revocation_url root expected =
      if is_empty expected
      then throw (message "stage: missing checked manifest digest")
      else stage_update url revocation_url root expected
