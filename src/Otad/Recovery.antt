-- ===== src/Otad/Recovery.antt =====
-- internal/otad/recovery.go: the recovery image on the ESP. The bytes that are fetched and verified go
-- into a pair of files of their own, which then takes the place of the pair that is installed.
pub mod Swap
pub mod Points
pub mod Survival
use atom_loops.Prelude.{Bool, true, false, ◌||◌, [], if◌then◌else◌}
use atom_loops.Prelude.Text.{Bytes, codes, is_empty, ◌=b◌}
use atom_loops.Prelude.Int.{ℤ}
use atom_loops.Prelude.Numerals.{decimal_ℤ}
use atom_loops.Prelude.Hex.{encode_hex}
use atom_loops.System.Files.{FilePath, join, suffixed}
use atom_loops.System.Io.{
  Io, message, pure, throw, attempt, ignore, label, on_error, after, found, flush, read_file,
  rename, remove, create_work, remove_work, ◌>>=◌, ◌>>◌,
}
use atom_loops.Trust.{verify, verify_cert}
use atom_loops.Deployment.State.{Deployment, has_pending}
use atom_loops.Deployment.Wal.{load, save}
use atom_loops.Otad.Fetch.{fetch_to}
use atom_loops.Otad.Manifest.{Manifest}
use atom_loops.Otad.Outside.{Outside}
use atom_loops.Otad.Slots.{StageDirs}
use atom_loops.Otad.Identity.{pending_update_error}
use atom_loops.Otad.Trusted.{
  VerifiedManifest, fetch_verified_manifest, verify_sha256, commit_dir, certified,
}

abbrev pub recovery_path : StageDirs → FilePath
recovery_path dirs = join dirs.esp (codes "kernelcache-recovery.efi")

abbrev pub recovery_next : StageDirs → FilePath
recovery_next dirs = join dirs.esp (codes "kernelcache-recovery-next.efi")

abbrev pub recovery_prev : StageDirs → FilePath
recovery_prev dirs = join dirs.esp (codes "kernelcache-recovery-prev.efi")

-- path + ".sig"
abbrev pub sig_of : FilePath → FilePath
sig_of p = suffixed p (codes ".sig")

drop_prev : StageDirs → Io (Unit {0})
drop_prev dirs =
    ignore (remove (recovery_prev dirs)) >> ignore (remove (sig_of (recovery_prev dirs)))

restore_prev : StageDirs → Io Bool
restore_prev dirs = do
  label "recovery: restore previous image" (rename (recovery_prev dirs) (recovery_path dirs))
  label "recovery: restore previous signature"
      (rename (sig_of (recovery_prev dirs)) (sig_of (recovery_path dirs)))
  commit_dir
  pure true

-- RepairRecoverySlot, past the test of the ESP.
repair_pair : StageDirs → Io Bool
repair_pair dirs = do
  image ← found (recovery_path dirs)
  whole ← if image then found (sig_of (recovery_path dirs)) else pure false
  if whole
      then drop_prev dirs >> pure false
      else found (recovery_prev dirs) >>= λ prev. if prev then restore_prev dirs else pure false

-- The result tells that an interrupted update was rolled back.
unfoldable pub repair_recovery_slot : StageDirs → Io Bool
unfolding repair_pair drop_prev restore_prev
repair_recovery_slot dirs = if is_empty dirs.esp then pure false else repair_pair dirs

file_sha256 : (Bytes → Bytes) → FilePath → Io Bytes
file_sha256 sha256 p = do b ← read_file p; pure (encode_hex (sha256 b))

unfoldable pub recovery_is_current : (Bytes → Bytes) → StageDirs → Manifest → Io Bool
unfolding file_sha256
recovery_is_current sha256 dirs m =
    if is_empty m.recovery_hash
    then pure true
    else attempt (file_sha256 sha256 (recovery_path dirs)) (λ h. pure (h =b m.recovery_hash))
        (λ _. pure false)

-- The closure `cleanup`.
drop_next : StageDirs → Io (Unit {0})
drop_next dirs =
    ignore (remove (recovery_next dirs)) >> ignore (remove (sig_of (recovery_next dirs)))

keep_old : StageDirs → Bool → Io (Unit {0})
keep_old dirs false = pure tt
keep_old dirs true = do
  on_error
      (label "recovery: keep previous image" (rename (recovery_path dirs) (recovery_prev dirs)))
      (drop_next dirs)
  ignore (rename (sig_of (recovery_path dirs)) (sig_of (recovery_prev dirs)))

-- The renames of StageRecovery, up to the commit of the new pair.
unfoldable pub swap_recovery : StageDirs → Io (Unit {0})
unfolding keep_old drop_next
swap_recovery dirs = do
  installed ← found (recovery_path dirs)
  keep_old dirs installed
  label "recovery: install signature"
      (rename (sig_of (recovery_next dirs)) (sig_of (recovery_path dirs)))
  label "recovery: install image" (rename (recovery_next dirs) (recovery_path dirs))
  commit_dir

pub data RecoveryReport : Type 0 where
  already_current : RecoveryReport
  installed : ℤ → RecoveryReport

module _ (ext : Outside) (wal : FilePath) (dirs : StageDirs) where
  open ext use {net, crypto, json, sha256, now, timestamp}

  -- What is fetched is verified before the installed pair is touched.
  fetch_pair : Bytes → VerifiedManifest → Io (Unit {0})
  fetch_pair root vm = do
    fetch_to net vm.manifest.recovery_url (recovery_next dirs)
    verify_sha256 sha256 (recovery_next dirs) vm.manifest.recovery_hash
    fetch_to net vm.manifest.recovery_sig_url (sig_of (recovery_next dirs))
    verify_sha256 sha256 (sig_of (recovery_next dirs)) vm.manifest.recovery_sig_hash
    img ← read_file (recovery_next dirs)
    sig ← read_file (sig_of (recovery_next dirs))
    key ← label "recovery" (certified (verify_cert crypto vm.cert vm.cert_sig root now))
    if verify crypto img sig key.0 then pure tt else throw (message "recovery: signature invalid")
    commit_dir

  recorded : Manifest → Deployment → Deployment
  recorded m d = record d {
    recovery = record d.recovery {
      version = decimal_ℤ m.recovery_version;
      last_updated = timestamp;
    };
  }

  record_version : Manifest → Io (Unit {0})
  record_version m =
      attempt (load json wal) (λ d. ignore (save json wal (recorded m d))) (λ _. pure tt)

  install_recovery : Bytes → VerifiedManifest → Bool → Io RecoveryReport
  install_recovery root vm true = pure already_current
  install_recovery root vm false = do
    ignore (remove (join dirs.esp (codes "kernelcache-next.efi")))
    on_error (fetch_pair root vm) (drop_next dirs)
    swap_recovery dirs
    flush
    drop_prev dirs
    ignore commit_dir
    record_version vm.manifest
    pure (installed vm.manifest.recovery_version)

  stage_recovery_of : Bytes → VerifiedManifest → Io RecoveryReport
  stage_recovery_of root vm =
      if is_empty vm.manifest.recovery_url
        || is_empty vm.manifest.recovery_sig_url
        || is_empty vm.manifest.recovery_hash
      then throw (message "recovery: this release carries no recovery image")
      else recovery_is_current sha256 dirs vm.manifest >>= install_recovery root vm

  unfoldable pub stage_recovery : Bytes → Bytes → Bytes → Io RecoveryReport
  unfolding stage_recovery_of install_recovery record_version recorded fetch_pair drop_prev
      drop_next
  stage_recovery url revocation_url root = do
    if is_empty dirs.esp then throw (message "recovery: no ESP configured") else pure tt
    d ← load json wal
    if has_pending d then throw (pending_update_error ext.cmdline d) else pure tt
    repair_recovery_slot dirs
    n ← create_work
    after (fetch_verified_manifest ext n url revocation_url root [] >>= stage_recovery_of root)
        (remove_work n)
