-- ===== src/Otad/Confirm/Retry.antt =====
-- The firmware track after a rollback that did not reach the slot files.
use atom_loops.Prelude.{◌≡◌, refl, ap, ◌∙◌, Bool, true, false, not, if◌then◌else◌}
use atom_loops.Prelude.Text.{Bytes, =b_refl}
use atom_loops.System.Files.{FilePath}
use atom_loops.System.Io.{World, Outcome, done, continue, ◌>>=◌, pure}
use atom_loops.Deployment.State.{Deployment, FirmwareBundle}
use atom_loops.Deployment.Transition.{
  has_pending_firmware, rollback_firmware, record_firmware_probe,
}
use atom_loops.Deployment.History.Floors.{
  is_candidate, with_bundle, has_pending_firmware_lem, bundle_at-with_bundle,
}
use atom_loops.Deployment.Wal.{Json, load}
use atom_loops.Otad.Slots.{StageDirs}
use atom_loops.Otad.Confirm.{
  no_candidate, roll_back_bundle, confirm_bundle, confirm_loaded, firmware_boot_confirm,
}

no_candidate_lem :
    (name : Bytes) (d : Deployment) (b : FirmwareBundle)
    → is_candidate b ≡ false
    → has_pending_firmware name (with_bundle name b d) ≡ false
no_candidate_lem name d b h =
    rw
      (
        has_pending_firmware_lem name (with_bundle name b d),
        bundle_at-with_bundle name name d b,
        =b_refl name,
      )
      h

rolled_back_lem :
    (bundle : Bytes) (d : Deployment)
    → has_pending_firmware bundle (rollback_firmware bundle d) ≡ false
unfolding rollback_firmware
rolled_back_lem bundle d = no_candidate_lem bundle d _ refl

module _ (json : Json) (now : Bytes) (wal : FilePath) (dirs : StageDirs) where
  loaded_lem :
      (bundle : Bytes) (d : Deployment) (probe_ok b : Bool) (v : World)
      → b ≡ false
      → (if not b
            then pure no_candidate
            else (if not probe_ok
                then roll_back_bundle json now wal dirs bundle d
                else confirm_bundle json now wal dirs bundle (record_firmware_probe now bundle d)))
          v
        ≡ (done no_candidate, v)
  loaded_lem bundle d probe_ok true v h = cc
  loaded_lem bundle d probe_ok false v h = refl

  -- Where the log that loads is one in which a bundle was rolled back, the confirmation of the bundle ends
  -- with "no candidate in flight" and does nothing else, whatever the probe says. So where the power is lost
  -- between the two parts of a rollback, behind the log and in front of the slot files, a later confirmation
  -- does not restore the slot files.
  pub firmware_boot_confirm-no_candidate :
      (bundle : Bytes) (d : Deployment) (probe_ok : Bool) (w v : World)
      → load json wal w ≡ (done (rollback_firmware bundle d), v)
      → firmware_boot_confirm json now wal dirs bundle probe_ok w ≡ (done no_candidate, v)
  unfolding firmware_boot_confirm confirm_loaded ◌>>=◌
  firmware_boot_confirm-no_candidate bundle d probe_ok w v l =
      ap
        (λ (x : Outcome Deployment × World).
          continue x.0 (confirm_loaded json now wal dirs bundle probe_ok) x.1)
        l
      ∙ loaded_lem bundle (rollback_firmware bundle d) probe_ok
          (has_pending_firmware bundle (rollback_firmware bundle d)) v (rolled_back_lem bundle d)
