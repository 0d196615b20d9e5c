-- ===== src/Tests/Log.antt =====
-- A device that is provisioned with rel1 and updated to rel2.
use atom_loops.Prelude.{◌≡◌, ◌≢◌, ◌⊎◌, refl, true, false, some, [], arith}
use atom_loops.Prelude.Text.{Bytes, codes}
use atom_loops.Prelude.Int.{pos, leb_ℤ}
use atom_loops.Deployment.State.{Deployment}
use atom_loops.Deployment.Transition.{
  kc_of, new, deploy, record_good_boot, decrement_boot_attempt, rollback, needs_recovery,
  deploy_firmware,
}
use atom_loops.Deployment.Slots.{Slot, pick_boot_target}
use atom_loops.Deployment.History.{
  Step, deployed, hash_recorded, booted, firmware_deployed, Reachable, provisioned, next,
  good_boots, failed_boots,
}
use atom_loops.Deployment.History.Invariants.{
  IsCoupled, Reachable-IsCoupled, Kept, Advanced, counter_moves_only_on_promotion,
  Reachable-has_fallback,
}
use atom_loops.Deployment.History.Trials.{good_boots_promote, failed_boots_abandon}
use atom_loops.Deployment.History.Floors.{
  bundle_at, IsFloored, Reachable-IsFloored, floors_never_fall,
}
use atom_loops.Deployment.History.Unlabelled.{unlabelled_resets_counter}

abbrev now : Bytes
now = codes "2024-01-01T00:00:00Z"

abbrev candidate : Bytes
candidate = codes "rel2"

abbrev first_log : Deployment
first_log = new now (codes "device") (codes "rel1")

-- The log after a staging of the candidate.
abbrev trial_log : Deployment
trial_log =
    let d = deploy candidate first_log in
    record d { rootfs = record d.rootfs { pending_hash = codes "aa" } }

first_log-Reachable : Reachable first_log
first_log-Reachable = provisioned now (codes "device") (codes "rel1") refl

trial_log-Reachable : Reachable trial_log
trial_log-Reachable =
    next (next first_log-Reachable (deployed candidate first_log))
      (hash_recorded (codes "aa") (deploy candidate first_log))

Reachable-IsCoupled_example : IsCoupled trial_log
Reachable-IsCoupled_example = Reachable-IsCoupled trial_log-Reachable

counter_moves_only_on_promotion_example :
    Kept trial_log (record_good_boot now true trial_log).0
    ⊎ Advanced trial_log (record_good_boot now true trial_log).0
counter_moves_only_on_promotion_example =
    counter_moves_only_on_promotion trial_log-Reachable (booted now true trial_log)

Reachable-has_fallback_example :
    (needs_recovery trial_log ≡ false)
    × (pick_boot_target (some trial_log) ≢ some (Slot.recovery, Slot.recovery))
Reachable-has_fallback_example = Reachable-has_fallback trial_log-Reachable

-- The threshold of a new log is 3: two good boots leave the candidate pending, the third promotes it.
good_boots_promote_example :
    let e = good_boots now 1 (deploy candidate first_log) in
    let (f, promoted) = record_good_boot now true (good_boots now 2 (deploy candidate first_log)) in
    (e.rootfs.last_known_good ≡ first_log.rootfs.last_known_good)
    × (e.anti_rollback.counter_value ≡ first_log.anti_rollback.counter_value)
    × (e.rootfs.pending ≡ candidate)
    × ((promoted ≡ true)
        × (f.rootfs.current ≡ candidate)
        × (f.rootfs.last_known_good ≡ candidate)
        × (f.rootfs.pending ≡ []))
unfolding new
good_boots_promote_example =
    good_boots_promote now candidate first_log refl 2 (omega arith) refl 1 (omega arith)

failed_boots_abandon_example :
    let e = rollback (failed_boots 3 (deploy candidate first_log)) in
    ((decrement_boot_attempt (failed_boots 2 (deploy candidate first_log))).1 ≡ true)
    × ((e.rootfs.current ≡ first_log.rootfs.last_known_good)
        × (e.rootfs.pending ≡ [])
        × (e.anti_rollback.counter_value ≡ first_log.anti_rollback.counter_value))
unfolding new
failed_boots_abandon_example =
    failed_boots_abandon candidate first_log refl 2 refl refl 2 (omega arith)

abbrev firmware_log : Deployment
firmware_log = (deploy_firmware (codes "gpu") (pos 4) (codes "hash") trial_log).0

firmware_deployed_lem : Step trial_log firmware_log
firmware_deployed_lem = firmware_deployed (codes "gpu") (pos 4) (codes "hash") trial_log

floors_never_fall_example :
    leb_ℤ
      (bundle_at (codes "gpu") trial_log).min_version
      (bundle_at (codes "gpu") firmware_log).min_version
    ≡ true
floors_never_fall_example =
    floors_never_fall trial_log-Reachable firmware_deployed_lem (codes "gpu")

Reachable-IsFloored_example : IsFloored (codes "gpu") firmware_log
Reachable-IsFloored_example =
    Reachable-IsFloored (next trial_log-Reachable firmware_deployed_lem) (codes "gpu")

-- A log with threshold 1 and a counter of 7.
abbrev single_log : Deployment
single_log = record first_log {
  kernelcache = record first_log.kernelcache { stable_threshold = pos 1 };
  anti_rollback = record first_log.anti_rollback { counter_value = pos 7 };
}

unlabelled_resets_counter_example :
    let (e, promoted) = record_good_boot now true (deploy (codes "nightly") single_log) in
    (promoted ≡ true)
    × (e.rootfs.last_known_good ≡ codes "nightly")
    × (e.anti_rollback.counter_value ≡ pos 0)
unfolding new kc_of
unlabelled_resets_counter_example =
    unlabelled_resets_counter now (codes "nightly") single_log refl refl refl refl refl
