-- ===== src/Otad/Loader/Image.antt =====
-- internal/otad/loader.go: a new boot loader, fetched beside the kernel images, tried on one boot, and
-- installed once it has run.
pub mod Installed
pub mod Guarded
use atom_loops.Prelude.{ℕ, Bool, true, false, not, ◌&&◌, ◌||◌, [], ◌∷◌, ◌++◌, if◌then◌else◌}
use atom_loops.Prelude.Text.{Bytes, codes, is_empty}
use atom_loops.Prelude.Int.{ℤ, pos, ◌=z◌, ltb_ℤ, leb_ℤ}
use atom_loops.Prelude.Numerals.{decimal_ℤ}
use atom_loops.Prelude.Hex.{encode_hex, equal_fold}
use atom_loops.System.Files.{FilePath, join, suffixed}
use atom_loops.System.Io.{
  Io, message, pure, throw, ignore, label, on_error, after, found, flush, settle, read_file, write,
  remove, create_temp, create_work, remove_work, ◌>>=◌, ◌>>◌,
}
use atom_loops.Trust.{Crypto, verify, verify_cert}
use atom_loops.Deployment.State.{has_pending}
use atom_loops.Deployment.Wal.{load}
use atom_loops.Otad.BootState.{BootState}
use atom_loops.Otad.Fetch.{fetch_to}
use atom_loops.Otad.Manifest.{Manifest}
use atom_loops.Otad.Outside.{Outside}
use atom_loops.Otad.Slots.{StageDirs, boot_state_path, write_boot_state, copy_file_sync}
use atom_loops.Otad.Identity.{pending_update_error}
use atom_loops.Otad.Trusted.{
  VerifiedManifest, fetch_verified_manifest, verify_sha256, commit_dir, certified,
}
use atom_loops.Otad.Loader.{
  Keys, loader_boot_path, loader_candidate, loader_ran, loader_failed, loader_prev,
  kernelcache_next, loader_version_of, installed_loader_version, file_loader_version, key_value,
  version_in, read_key_file, marker_version, write_marker, candidate_fields,
  cancel_loader_candidate,
}

-- The messages that the verbs return.
pub data LoaderReport : Type 0 where
  nothing : LoaderReport
  already_installed : ℤ → LoaderReport
  on_trial : ℤ → LoaderReport
  not_started : ℤ → LoaderReport
  installed : ℤ → LoaderReport

keep_previous : StageDirs → Bool → Io (Unit {0})
keep_previous dirs false = pure tt
keep_previous dirs true =
    label "loader: keep previous" (copy_file_sync (loader_boot_path dirs) (loader_prev dirs))

unfoldable pub install_loader_image : StageDirs → FilePath → Io (Unit {0})
unfolding keep_previous
install_loader_image dirs image = do
  there ← found (loader_boot_path dirs)
  keep_previous dirs there
  settle
  label "loader: install" (copy_file_sync image (loader_boot_path dirs))
  flush

module _ (sha256 : Bytes → Bytes) (dirs : StageDirs) where
  pub mark_failed : ℤ → Io LoaderReport
  mark_failed version = do
    write_marker (loader_failed dirs) ((codes "version=" ++ decimal_ℤ version) ∷ [])
    pure (not_started version)

  install_candidate : Keys → ℤ → Io LoaderReport
  install_candidate cand version = do
    img ← label "loader: candidate image missing" (read_file (kernelcache_next dirs))
    if equal_fold (encode_hex (sha256 img)) (key_value cand (codes "sha256"))
        then pure tt
        else throw (message "loader: candidate image changed since it was staged, not installing")
    install_loader_image dirs (kernelcache_next dirs)
    ignore (remove (loader_failed dirs))
    pure (installed version)

  -- What HandleLoaderCandidate does with a candidate, in front of the deferred cancellation.
  try_candidate : Keys → ℤ → Io LoaderReport
  try_candidate cand version = do
    ran ← marker_version (loader_ran dirs)
    if not (ran =z version) then mark_failed version else install_candidate cand version

  handle_keys : Keys → Io LoaderReport
  handle_keys cand =
      if version_in cand =z pos 0
      then pure nothing
      else after (try_candidate cand (version_in cand)) (cancel_loader_candidate dirs)

  unfoldable pub handle_loader_candidate : Io LoaderReport
  unfolding handle_keys try_candidate install_candidate mark_failed
  handle_loader_candidate =
      if is_empty dirs.esp
      then pure nothing
      else read_key_file (loader_candidate dirs) >>= handle_keys

-- The image of RepairLoader, once it is verified.
put_image : StageDirs → Bytes → FilePath → Io LoaderReport
put_image dirs image tmp = do
  on_error (write tmp image) (ignore settle)
  settle
  install_loader_image dirs tmp
  pure (installed (loader_version_of image))

unfoldable pub repair_loader : Crypto → StageDirs → Bytes → Bytes → Bytes → ℕ → Io LoaderReport
unfolding put_image
repair_loader crypto dirs image sig root now = do
  if is_empty dirs.esp then throw (message "loader: no ESP configured") else pure tt
  cert ← label "loader: signing cert" (read_file (join dirs.esp (codes "signing-cert.json")))
  cert_sig ←
      label "loader: signing cert signature"
        (read_file (join dirs.esp (codes "signing-cert.json.sig")))
  key ← label "loader" (certified (verify_cert crypto cert cert_sig root now))
  if verify crypto image sig key.0
      then pure tt
      else throw (message "loader: signature invalid, refusing")
  tmp ← create_temp
  after (put_image dirs image tmp) (remove tmp)

module _ (ext : Outside) (wal : FilePath) (dirs : StageDirs) where
  open ext use {net, crypto, json, sha256, now}

  -- The closures of removals on the error paths.
  drop_image : Io (Unit {0})
  drop_image = ignore (remove (kernelcache_next dirs))

  drop_pair : Io (Unit {0})
  drop_pair = drop_image >> ignore (remove (suffixed (kernelcache_next dirs) (codes ".sig")))

  check_reported : ℤ → ℤ → Io (Unit {0})
  check_reported got want =
      if got =z want
      then pure tt
      else drop_image >> throw (message "loader: image reports another version")

  fetch_loader : Bytes → VerifiedManifest → Io Bytes
  fetch_loader root vm = do
    let m = vm.manifest
    let sig_path = suffixed (kernelcache_next dirs) (codes ".sig")
    fetch_to net m.loader_url (kernelcache_next dirs)
    on_error (verify_sha256 sha256 (kernelcache_next dirs) m.loader_hash) drop_image
    got ← file_loader_version (kernelcache_next dirs)
    check_reported got m.loader_version
    on_error (fetch_to net m.loader_sig_url sig_path) drop_image
    on_error (verify_sha256 sha256 sig_path m.loader_sig_hash) drop_pair
    img ← read_file (kernelcache_next dirs)
    sig ← read_file sig_path
    key ← label "loader" (certified (verify_cert crypto vm.cert vm.cert_sig root now))
    if verify crypto img sig key.0
        then pure tt
        else drop_pair >> throw (message "loader: signature invalid, refusing")
    pure img

  arm_loader : ℤ → Bytes → Io LoaderReport
  arm_loader version img = do
    ignore (remove (loader_ran dirs))
    write_marker (loader_candidate dirs) (candidate_fields version (encode_hex (sha256 img)))
    write_boot_state (boot_state_path dirs)
        (record { target = codes "next"; trial = true; attempts = pos 1 })
    commit_dir
    flush
    pure (on_trial version)

  -- Behind the test for a version that failed before.
  put_on_trial : Bytes → VerifiedManifest → Io LoaderReport
  put_on_trial root vm = fetch_loader root vm >>= arm_loader vm.manifest.loader_version

  try_newer : Bytes → Bool → VerifiedManifest → ℤ → Io LoaderReport
  try_newer root retry_failed vm current =
      if leb_ℤ vm.manifest.loader_version current then pure (already_installed current) else (do
        before ← marker_version (loader_failed dirs)
        if before =z vm.manifest.loader_version && not retry_failed
            then throw
                (message "loader: version did not start on this machine before, not retrying")
            else put_on_trial root vm)

  stage_loader_of : Bytes → Bool → VerifiedManifest → Io LoaderReport
  stage_loader_of root retry_failed vm =
      if is_empty vm.manifest.loader_url
        || is_empty vm.manifest.loader_sig_url
        || ltb_ℤ vm.manifest.loader_version (pos 1)
      then throw (message "loader: this release carries no boot loader")
      else installed_loader_version dirs >>= try_newer root retry_failed vm

  unfoldable pub stage_loader : Bytes → Bytes → Bytes → Bool → Io LoaderReport
  unfolding stage_loader_of try_newer put_on_trial arm_loader fetch_loader check_reported drop_pair
      drop_image
  stage_loader url revocation_url root retry_failed = do
    if is_empty dirs.esp then throw (message "loader: no ESP configured") else pure tt
    d ← load json wal
    if has_pending d then throw (pending_update_error ext.cmdline d) else pure tt
    n ← create_work
    after
        (fetch_verified_manifest ext n url revocation_url root []
          >>= stage_loader_of root retry_failed)
        (remove_work n)
