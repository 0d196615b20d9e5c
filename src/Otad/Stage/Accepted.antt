-- ===== src/Otad/Stage/Accepted.antt =====
-- What stands behind a release that staging reports.
use atom_loops.Prelude.{◌≡◌, true, false, ℕ}
use atom_loops.Prelude.Text.{Bytes, is_empty}
use atom_loops.System.Files.{FilePath, Files}
use atom_loops.System.Io.{World, Io, ignore, remove_work}
use atom_loops.System.Returns.{Returns}
use atom_loops.System.Runs.{Ran}
use atom_loops.Deployment.State.{Deployment}
use atom_loops.Deployment.Wal.{load, save}
use atom_loops.Otad.Hardware.{coupled_kernel_check, detect_gpu_chips}
use atom_loops.Otad.Manifest.{Manifest}
use atom_loops.Otad.Outside.{Outside}
use atom_loops.Otad.Slots.{StageDirs}
use atom_loops.Otad.Trusted.{VerifiedManifest}
use atom_loops.Otad.Trusted.Chain.{IsTrusted}
use atom_loops.Otad.Stage.{StageReport, staged_bundles, arm_candidate}
use atom_loops.Otad.Stage.Marked.{IsMarked}

-- The run marked the release of the manifest in the log and saved it, and went on from there to the
-- files at its end: between them are the directories, the boot-state, the bundles and the work files.
pub record IsStaged (ext : Outside) (wal : FilePath) (dirs : StageDirs) (m : Manifest)
    (r : StageReport) (final : Files) : Type 0 where
  pub old : Deployment
  pub log : Deployment
  pub before : World
  pub found : World
  pub after : World
  pub stopped : World
  pub work : ℕ
  pub loaded : Ran (load ext.json wal) before old found
  pub marked : IsMarked m (staged_bundles ext m) old log
  pub saved : Ran (save ext.json wal log) found tt after
  pub armed : Ran (arm_candidate ext wal dirs m) after r stopped
  pub cleaned : final ≡ (ignore (remove_work work) stopped).1.files

-- The release comes from this manifest, which passed the checks that staging makes before it downloads.
pub record IsAccepted (ext : Outside) (wal : FilePath) (dirs : StageDirs)
    (root revocation_url expected : Bytes) (r : StageReport) (final : Files) : Type 0 where
  pub vm : VerifiedManifest
  pub trusted : IsTrusted ext root revocation_url expected vm
  pub coupled : coupled_kernel_check vm.manifest ext.kernel (detect_gpu_chips ext.pci) ≡ true
  pub tree : is_empty vm.manifest.rootfs_hash_tree_url ≡ false
  pub sig : is_empty vm.manifest.kernelcache_sig_url ≡ false
  pub version : r.version ≡ vm.manifest.version
  pub bundles : r.bundles ≡ staged_bundles ext vm.manifest
  pub staged : IsStaged ext wal dirs vm.manifest r final
