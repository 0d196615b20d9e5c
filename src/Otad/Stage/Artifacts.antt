-- ===== src/Otad/Stage/Artifacts.antt =====
-- What the downloads of a release leave alone.
use atom_loops.Prelude.{◌≡◌, refl, Bool, true, false, Option, List, [], ◌∷◌, ◌++◌}
use atom_loops.Prelude.Text.{Bytes, codes, ◌=b◌, =b_iff, mem_bytes}
use atom_loops.System.Files.{FilePath, join, File, Files, ◌=p◌, join-ne}
use atom_loops.System.Io.{ignore, remove, write_new}
use atom_loops.System.Triple.{Keeps, Triple-label}
use atom_loops.Otad.Anchor.{image_path, next_slot, write_firmware_anchor}
use atom_loops.System.Keeps.{Keeps-bind, Keeps-pure, Keeps-throw, Keeps-if, Keeps-on_error}
use atom_loops.Otad.Fetch.Frame.{write_new-Keeps, drop-Keeps, verify-Keeps, fetch_to-Keeps}
use atom_loops.Otad.Loader.{cancel_loader_candidate}
use atom_loops.Otad.Manifest.{FirmwareBundleSpec, Manifest}
use atom_loops.Otad.Outside.{Outside}
use atom_loops.Otad.Slots.{StageDirs}
use atom_loops.Otad.Slots.Frame.{Same, settle-Keeps}
use atom_loops.Otad.Trusted.{VerifiedManifest}
use atom_loops.Otad.Stage.{
  bundle_dir, discard, fetch_first, fetch_second, refuse_without, fetch_rootfs, fetch_kernelcache,
  fetch_tree, fetch_bundle, fetch_bundles, fetch_release,
}

-- The names of the files that a download may write or remove: the next slots, the file that each is
-- written to first, and the markers of a loader on trial.
abbrev pub artifact_names : List Bytes
artifact_names =
    codes "rootfs-next.erofs"
    ∷ codes "rootfs-next.erofs.tmp"
    ∷ codes "rootfs-next.hash"
    ∷ codes "rootfs-next.hash.tmp"
    ∷ codes "kernelcache-next.efi"
    ∷ codes "kernelcache-next.efi.tmp"
    ∷ codes "kernelcache-next.efi.sig"
    ∷ codes "kernelcache-next.efi.sig.tmp"
    ∷ codes "loader-candidate"
    ∷ codes "loader-ran"
    ∷ codes "firmware-next.img"
    ∷ codes "firmware-next.img.tmp"
    ∷ codes "firmware-next.hash"
    ∷ codes "firmware-next.hash.tmp"
    ∷ codes "fw-manifest-next.json"
    ∷ codes "fw-manifest-next.json.sig"
    ∷ codes "fw-signing-cert-next.json"
    ∷ codes "fw-signing-cert-next.json.sig"
    ∷ []

abbrev pub is_artifact : Bytes → Bool
is_artifact n = mem_bytes n artifact_names

-- A path of another name than those.
other_name :
    (d n e m : Bytes) → is_artifact n ≡ true → is_artifact m ≡ false → join d n =p join e m ≡ false
other_name d n e m h k = go (n =b m) refl
  where
    go : (b : Bool) → n =b m ≡ b → join d n =p join e m ≡ false
    go true g = let s : n ≡ m = (=b_iff n m).0 g in let t : is_artifact m ≡ true = rw (← s) h in cc
    go false g = join-ne d n e m g

module _ (ext : Outside) (wal : FilePath) (dirs : StageDirs) (e m : Bytes) (x : Option File)
    (other : is_artifact m ≡ false) where
  abbrev Still : Files → Type 0
  Still = Same (join e m) x refl

  away : (d n : Bytes) → is_artifact n ≡ true → join d n =p join e m ≡ false
  away d n h = other_name d n e m h other

  dropped-Keeps : (d n : Bytes) → is_artifact n ≡ true → Keeps Still (ignore (remove (join d n)))
  dropped-Keeps d n h = drop-Keeps _ x refl _ (away d n h)

  written-Keeps : (d n s : Bytes) → is_artifact n ≡ true → Keeps Still (write_new (join d n) s)
  written-Keeps d n s h = write_new-Keeps _ x refl _ s (away d n h)

  -- One artifact, by its name and the name with the suffix of a download.
  first-Keeps :
      (url hash d n : Bytes)
      → is_artifact n ≡ true
      → is_artifact (n ++ codes ".tmp") ≡ true
      → Keeps Still (fetch_first ext wal dirs url hash (join d n))
  unfolding fetch_first discard
  first-Keeps url hash d n h k =
      Keeps-bind Still _ (fetch_to-Keeps _ x refl ext.net url (join d n) (away d n h) (away d _ k))
        λ _. Keeps-on_error Still (verify-Keeps _ x refl ext.sha256 _ hash) (dropped-Keeps d n h)

  second-Keeps :
      (url hash d f n : Bytes)
      → is_artifact f ≡ true
      → is_artifact n ≡ true
      → is_artifact (n ++ codes ".tmp") ≡ true
      → Keeps Still (fetch_second ext wal dirs url hash (join d f) (join d n))
  unfolding fetch_second discard
  second-Keeps url hash d f n g h k =
      Keeps-bind Still _
        (Keeps-on_error Still
          (fetch_to-Keeps _ x refl ext.net url (join d n) (away d n h) (away d _ k))
          (dropped-Keeps d f g))
        λ _.
          Keeps-on_error Still (verify-Keeps _ x refl ext.sha256 _ hash)
            (Keeps-bind Still _ (dropped-Keeps d f g) (λ _. dropped-Keeps d n h))

  refuse-Keeps :
      (url d n : Bytes)
      → is_artifact n ≡ true
      → Keeps Still (refuse_without ext wal dirs url (join d n))
  unfolding refuse_without discard
  refuse-Keeps url d n h =
      Keeps-if Still _ (Keeps-bind Still _ (dropped-Keeps d n h) (λ _. Keeps-throw Still _))
        (Keeps-pure Still tt)

  rootfs-Keeps : (m : Manifest) → Keeps Still (fetch_rootfs ext wal dirs m)
  unfolding fetch_rootfs
  rootfs-Keeps m = Keeps-bind Still _ (settle-Keeps _ x refl) λ _.
      Keeps-bind Still _ (first-Keeps _ _ _ _ refl refl) λ _.
        Keeps-bind Still _ (refuse-Keeps _ _ _ refl) (λ _. second-Keeps _ _ _ _ _ refl refl refl)

  cancel-Keeps : Keeps Still (cancel_loader_candidate dirs)
  unfolding cancel_loader_candidate
  cancel-Keeps =
      Keeps-if Still _ (Keeps-pure Still tt)
        (Keeps-bind Still _ (dropped-Keeps _ _ refl) (λ _. dropped-Keeps _ _ refl))

  kernelcache-Keeps : (m : Manifest) → Keeps Still (fetch_kernelcache ext wal dirs m)
  unfolding fetch_kernelcache
  kernelcache-Keeps m = Keeps-bind Still _ (settle-Keeps _ x refl) λ _.
      Keeps-bind Still _ cancel-Keeps λ _. Keeps-bind Still _ (first-Keeps _ _ _ _ refl refl) λ _.
        Keeps-bind Still _ (refuse-Keeps _ _ _ refl) (λ _. second-Keeps _ _ _ _ _ refl refl refl)

  tree-Keeps : (fw : FirmwareBundleSpec) (d : Bytes) → Keeps Still (fetch_tree ext wal dirs fw d)
  unfolding fetch_tree image_path
  tree-Keeps fw d = Keeps-if Still _ (Keeps-pure Still tt) (second-Keeps _ _ d _ _ refl refl refl)

  anchor-Keeps : (d a b c f : Bytes) → Keeps Still (write_firmware_anchor d next_slot a b c f)
  unfolding write_firmware_anchor
  anchor-Keeps d a b c f = Keeps-bind Still _ (settle-Keeps _ x refl) λ _.
      Keeps-bind Still _ (written-Keeps d _ a refl) λ _.
        Keeps-bind Still _ (written-Keeps d _ b refl)
          λ _. Keeps-bind Still _ (written-Keeps d _ c refl) λ _. written-Keeps d _ f refl

  bundle-Keeps :
      (vm : VerifiedManifest) (fw : FirmwareBundleSpec)
      → Keeps Still (fetch_bundle ext wal dirs vm fw)
  unfolding fetch_bundle image_path discard
  bundle-Keeps vm fw = Keeps-bind Still _ (settle-Keeps _ x refl) λ _.
      Keeps-bind Still _ (first-Keeps _ _ (bundle_dir dirs fw) _ refl refl) λ _.
        Keeps-bind Still _ (tree-Keeps fw (bundle_dir dirs fw)) λ _.
          Keeps-on_error Still (Triple-label _ (anchor-Keeps _ _ _ _ _)) (dropped-Keeps _ _ refl)

  bundles-Keeps :
      (vm : VerifiedManifest) (fws : List FirmwareBundleSpec)
      → Keeps Still (fetch_bundles ext wal dirs vm fws)
  unfolding fetch_bundles
  bundles-Keeps vm [] = Keeps-pure Still tt
  bundles-Keeps vm (fw ∷ fws) = Keeps-bind Still _ (bundle-Keeps vm fw) (λ _. bundles-Keeps vm fws)

  -- The part of stage that downloads a release and checks its files, which stands between the promotion of a
  -- running candidate and the marking of the new one: whatever the servers answer, wherever a call fails and
  -- wherever the power is lost, it leaves every file alone that has not the name of a next slot, of the file a
  -- next slot is downloaded to, or of a marker of a loader on trial.
  pub fetch_release-Keeps : (vm : VerifiedManifest) → Keeps Still (fetch_release ext wal dirs vm)
  unfolding fetch_release
  fetch_release-Keeps vm = Keeps-bind Still _ (rootfs-Keeps vm.manifest) λ _.
      Keeps-bind Still _ (kernelcache-Keeps vm.manifest) λ _.
        Keeps-bind Still _ (Keeps-if Still _ (Keeps-throw Still _) (Keeps-pure Still tt))
          (λ _. bundles-Keeps vm _)
