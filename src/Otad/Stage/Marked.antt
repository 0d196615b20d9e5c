-- ===== src/Otad/Stage/Marked.antt =====
-- What staging writes to the log.
use atom_loops.Prelude.{◌≡◌, refl, ap, sym, ◌∙◌, Bool, true, false, List, [], ◌∷◌, arith}
use atom_loops.Prelude.Text.{Bytes, =b_iff}
use atom_loops.Prelude.Int.{ℤ, ltb_ℤ}
use atom_loops.System.Files.{FilePath}
use atom_loops.System.Io.{World, Outcome, done, Io, continue, ◌>>=◌}
use atom_loops.Deployment.State.{Deployment}
use atom_loops.Deployment.Transition.{deploy, deploy_firmware}
use atom_loops.Deployment.History.Floors.{
  bundle_at, staged, get_bundle_lem, bundle_at-get_bundle, bundle_at-with_bundle,
}
use atom_loops.Deployment.Wal.{load, save}
use atom_loops.Otad.Manifest.{FirmwareBundleSpec, Manifest}
use atom_loops.Otad.Outside.{Outside}
use atom_loops.Otad.Slots.{StageDirs}
use atom_loops.Otad.Stage.{
  staged_bundles, accepted_bundle, deploy_bundles, with_candidate, mark_candidate,
}

-- Each of the bundles is above the floor that the log has for its name.
abbrev pub AllAbove : Deployment → List FirmwareBundleSpec → Type 0
AllAbove d [] = Unit
AllAbove d (fw ∷ fws) = (ltb_ℤ (bundle_at fw.name d).min_version fw.version ≡ true) × AllAbove d fws

-- What the deployment of bundles leaves of a log.
record Deployed (d e : Deployment) : Type 0 where
  rootfs : e.rootfs ≡ d.rootfs
  kernelcache : e.kernelcache ≡ d.kernelcache
  anti_rollback : e.anti_rollback ≡ d.anti_rollback
  floors : (j : Bytes) → (bundle_at j e).min_version ≡ (bundle_at j d).min_version

module _ (name : Bytes) (v : ℤ) (hash : Bytes) (d : Deployment) where
  one_floor :
      (j : Bytes)
      → (bundle_at j (deploy_firmware name v hash d).0).min_version ≡ (bundle_at j d).min_version
  unfolding deploy_firmware
  one_floor j = ground (
    arith,
    get_bundle_lem name j d,
    bundle_at-get_bundle name j d,
    bundle_at-with_bundle name j d (staged v hash (bundle_at name d)),
    =b_iff name j,
  )

  one_Deployed : Deployed d (deploy_firmware name v hash d).0
  unfolding deploy_firmware
  one_Deployed = record {
    rootfs = ground arith;
    kernelcache = ground arith;
    anti_rollback = ground arith;
    floors = one_floor;
  }

  one_above :
      (deploy_firmware name v hash d).1 ≡ true → ltb_ℤ (bundle_at name d).min_version v ≡ true
  unfolding deploy_firmware
  one_above h = ground (arith, get_bundle_lem name name d)

AllAbove-floors :
    (d e : Deployment) (fws : List FirmwareBundleSpec)
    → ((j : Bytes) → (bundle_at j e).min_version ≡ (bundle_at j d).min_version)
    → AllAbove e fws
    → AllAbove d fws
AllAbove-floors d e [] s a = tt
AllAbove-floors d e (fw ∷ fws) s (b, a) = (ground (arith, s fw.name), AllAbove-floors d e fws s a)

Deployed-trans : (d e f : Deployment) → Deployed d e → Deployed e f → Deployed d f
Deployed-trans d e f s t = record {
  rootfs = t.rootfs ∙ s.rootfs;
  kernelcache = t.kernelcache ∙ s.kernelcache;
  anti_rollback = t.anti_rollback ∙ s.anti_rollback;
  floors = λ j. t.floors j ∙ s.floors j;
}

-- The log that staging has marked for a release and its bundles.
pub record IsMarked (m : Manifest) (fws : List FirmwareBundleSpec) (d e : Deployment) : Type 0 where
  pub pending : e.rootfs.pending ≡ m.version
  pub pending_hash : e.rootfs.pending_hash ≡ m.rootfs_verity_hash
  pub budget : e.rootfs.boot_attempts ≡ d.rootfs.max_attempts
  pub current : e.rootfs.current ≡ d.rootfs.current
  pub last_known_good : e.rootfs.last_known_good ≡ d.rootfs.last_known_good
  pub anti_rollback : e.anti_rollback ≡ d.anti_rollback
  pub above : AllAbove d fws

module _ (ext : Outside) (wal : FilePath) (dirs : StageDirs) where
  abbrev All : List FirmwareBundleSpec → Deployment → Io Deployment
  All = deploy_bundles ext wal dirs

  -- A loop that ends well has deployed each bundle, and has touched no file.
  loop_lem :
      (fws : List FirmwareBundleSpec) (d : Deployment) (v : World) (k : Deployment → Io (Unit {0}))
      → ((All fws d >>= k) v).0 ≡ done tt
      → (e : Deployment) × Deployed d e × AllAbove d fws × ((All fws d >>= k) v ≡ k e v)
  unfolding deploy_bundles accepted_bundle ◌>>=◌
  loop_lem [] d v k h = (
    d,
    record { rootfs = refl; kernelcache = refl; anti_rollback = refl; floors = λ j. refl },
    tt,
    refl,
  )
  loop_lem (fw ∷ fws) d v k h =
      go (deploy_firmware fw.name fw.version fw.verity_hash d)
        (one_Deployed fw.name fw.version fw.verity_hash d)
        (one_above fw.name fw.version fw.verity_hash d) (λ c. loop_lem fws c v k) h
    where
      go :
          (x : Deployment × Bool)
          → Deployed d x.0
          → (x.1 ≡ true → ltb_ℤ (bundle_at fw.name d).min_version fw.version ≡ true)
          → ((c : Deployment)
              → ((All fws c >>= k) v).0 ≡ done tt
              → (e : Deployment) × Deployed c e × AllAbove c fws × ((All fws c >>= k) v ≡ k e v))
          → (((accepted_bundle ext wal dirs x >>= All fws) >>= k) v).0 ≡ done tt
          → (e : Deployment) × Deployed d e
            × AllAbove d (fw ∷ fws)
            × (((accepted_bundle ext wal dirs x >>= All fws) >>= k) v ≡ k e v)
      go (c, true) s a f h =
          let (e, t, b, r) = f c h in
          (e, Deployed-trans d c e s t, (a refl, AllAbove-floors d c fws s.floors b), r)
      go (c, false) s a f h = cc

  marked_lem :
      (m : Manifest) (fws : List FirmwareBundleSpec) (d e : Deployment)
      → Deployed (with_candidate ext wal dirs m d) e
      → AllAbove (with_candidate ext wal dirs m d) fws
      → IsMarked m fws d e
  unfolding with_candidate deploy
  marked_lem m fws d e s a = record {
    pending = ap (λ r. r.pending) s.rootfs;
    pending_hash = ap (λ r. r.pending_hash) s.rootfs;
    budget = ap (λ r. r.boot_attempts) s.rootfs;
    current = ap (λ r. r.current) s.rootfs;
    last_known_good = ap (λ r. r.last_known_good) s.rootfs;
    anti_rollback = s.anti_rollback;
    above = AllAbove-floors d (with_candidate ext wal dirs m d) fws (λ j. refl) a;
  }

  -- Where the log loads and the candidate is marked with success, all that was done to the files is to save
  -- a log in which the release of the manifest is pending with its verity hash and a full budget, the
  -- current and the last known good release and the anti-rollback counter are what they were, and each
  -- bundle that the machine needs is above its floor.
  pub mark_candidate-IsMarked :
      (m : Manifest) (d : Deployment) (w v : World)
      → load ext.json wal w ≡ (done d, v)
      → (mark_candidate ext wal dirs m w).0 ≡ done tt
      → (e : Deployment) × IsMarked m (staged_bundles ext m) d e
        × (mark_candidate ext wal dirs m w ≡ save ext.json wal e v)
  unfolding mark_candidate ◌>>=◌
  mark_candidate-IsMarked m d w v l h =
      let r : mark_candidate ext wal dirs m w
          ≡ (All (staged_bundles ext m) (with_candidate ext wal dirs m d) >>= save ext.json wal) v =
        ap
          (λ (x : Outcome Deployment × World).
            continue x.0
              (λ d.
                All (staged_bundles ext m) (with_candidate ext wal dirs m d) >>= save ext.json wal)
              x.1)
          l in
      let (e, s, a, q) =
        loop_lem (staged_bundles ext m) (with_candidate ext wal dirs m d) v (save ext.json wal)
          (ap (λ x. x.0) (sym r) ∙ h) in
      (e, marked_lem m (staged_bundles ext m) d e s a, r ∙ q)
