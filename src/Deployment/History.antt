-- ===== src/Deployment/History.antt =====
-- The log over its whole life: the transitions of internal/deployment/transition.go, and what the daemon
-- writes into the log itself (internal/otad: stage.go, otad.go and recovery.go), as steps that are taken in
-- any order.
pub mod Invariants
pub mod Trials
pub mod Floors
pub mod Unlabelled
use atom_loops.Prelude.{ℕ, zero, suc, Bool, true, false, Option, ◌≡◌}
use atom_loops.Prelude.Text.{Bytes, is_empty}
use atom_loops.Prelude.Int.{ℤ}
use atom_loops.Deployment.State.{Deployment, has_pending}
use atom_loops.Deployment.Transition.{
  new, deploy, record_good_boot, promote_running, deploy_firmware, record_firmware_probe,
  rollback_firmware, decrement_boot_attempt, rollback,
}
use atom_loops.Otad.BootState.{BootState}
use atom_loops.Otad.Daemon.{fallback_log}

-- One transition, or one write of the daemon: the verity hash that staging records, what BootSuccess makes
-- of a boot that did not run the candidate, and the version of the recovery image.
pub data Step : Deployment → Deployment → Type 0 where
  deployed : (v : Bytes) (d : Deployment) → Step d (deploy v d)
  hash_recorded :
      (hash : Bytes) (d : Deployment)
      → Step d (record d { rootfs = record d.rootfs { pending_hash = hash } })
  fell_back :
      (bs : Option BootState) (d : Deployment) → has_pending d ≡ true → Step d (fallback_log bs d).0
  recovery_recorded :
      (v now : Bytes) (d : Deployment)
      → Step d (record d { recovery = record d.recovery { version = v; last_updated = now } })
  booted : (now : Bytes) (b : Bool) (d : Deployment) → Step d (record_good_boot now b d).0
  promoted : (now : Bytes) (d : Deployment) → Step d (promote_running now d)
  attempted : (d : Deployment) → Step d (decrement_boot_attempt d).0
  rolled_back : (d : Deployment) → Step d (rollback d)
  firmware_deployed :
      (name : Bytes) (v : ℤ) (hash : Bytes) (d : Deployment)
      → Step d (deploy_firmware name v hash d).0
  firmware_probed :
      (now name : Bytes) (d : Deployment) → Step d (record_firmware_probe now name d).0
  firmware_rolled_back : (name : Bytes) (d : Deployment) → Step d (rollback_firmware name d)

-- The logs of a device that was provisioned with a release that has a name.
pub data Reachable : Deployment → Type 0 where
  provisioned : (now id v : Bytes) → is_empty v ≡ false → Reachable (new now id v)
  next : {d e : Deployment} → Reachable d → Step d e → Reachable e

-- So many good boots in a row, and so many boots in a row that fail.
pub good_boots : Bytes → ℕ → Deployment → Deployment
good_boots now zero d = d
good_boots now (suc k) d = (record_good_boot now Bool.true (good_boots now k d)).0

pub failed_boots : ℕ → Deployment → Deployment
failed_boots zero d = d
failed_boots (suc k) d = (decrement_boot_attempt (failed_boots k d)).0
