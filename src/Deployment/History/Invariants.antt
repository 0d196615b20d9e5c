-- ===== src/Deployment/History/Invariants.antt =====
-- Invariants of every log that a provisioned device can reach.
use atom_loops.Prelude.{◌⊎◌, inl, refl, ◌≢◌, Bool, true, false, ◌≡◌, Option, none, some, arith}
use atom_loops.Prelude.Text.{Bytes, =b_iff}
use atom_loops.Prelude.Int.{ℤ, ◌=z◌}
use atom_loops.Deployment.State.{Deployment, has_pending}
use atom_loops.Deployment.Transition.{
  needs_recovery, kc_of, new, deploy, record_good_boot, promote_running, deploy_firmware,
  record_firmware_probe, rollback_firmware, decrement_boot_attempt, rollback, promote_firmware,
}
use atom_loops.Deployment.Transition.Invariant.{
  IsSound, new-IsSound, deploy-IsSound, promote_running-IsSound, record_good_boot-IsSound,
  decrement-IsSound, rollback-IsSound,
}
use atom_loops.Otad.BootState.{BootState}
use atom_loops.Otad.Daemon.{fallback_log}
use atom_loops.Deployment.Slots.{Slot, pick_boot_target}
use atom_loops.Deployment.History.{
  Step, deployed, hash_recorded, fell_back, recovery_recorded, booted, promoted, attempted,
  rolled_back, firmware_deployed, firmware_probed, firmware_rolled_back, Reachable, provisioned,
  next,
}

-- The firmware track leaves the rest of the log alone.
pub record SameSystem (d e : Deployment) : Type 0 where
  pub rootfs : e.rootfs ≡ d.rootfs
  pub kernelcache : e.kernelcache ≡ d.kernelcache
  pub anti_rollback : e.anti_rollback ≡ d.anti_rollback

deploy_firmware-SameSystem :
    (name : Bytes) (v : ℤ) (hash : Bytes) (d : Deployment)
    → SameSystem d (deploy_firmware name v hash d).0
unfolding deploy_firmware
deploy_firmware-SameSystem name v hash d = ground arith

record_firmware_probe-SameSystem :
    (now name : Bytes) (d : Deployment) → SameSystem d (record_firmware_probe now name d).0
unfolding record_firmware_probe promote_firmware
record_firmware_probe-SameSystem now name d = ground arith

rollback_firmware-SameSystem :
    (name : Bytes) (d : Deployment) → SameSystem d (rollback_firmware name d)
unfolding rollback_firmware
rollback_firmware-SameSystem name d = ground arith

SameSystem-IsSound : {d e : Deployment} → SameSystem d e → IsSound d → IsSound e
SameSystem-IsSound {d} {e} same s = ground arith

fallback-IsSound :
    (bs : Option BootState) {d : Deployment}
    → has_pending d ≡ true
    → IsSound d
    → IsSound (fallback_log bs d).0
unfolding fallback_log decrement_boot_attempt rollback
fallback-IsSound bs p s = ground arith

Step-IsSound : {d e : Deployment} → Step d e → IsSound d → IsSound e
Step-IsSound (deployed v d) s = deploy-IsSound v s
Step-IsSound (hash_recorded h d) s = ground arith
Step-IsSound (fell_back bs d p) s = fallback-IsSound bs p s
Step-IsSound (recovery_recorded v now d) s = ground arith
Step-IsSound (booted now b d) s = record_good_boot-IsSound now b s
Step-IsSound (promoted now d) s = promote_running-IsSound now s
Step-IsSound (attempted d) s = decrement-IsSound s
Step-IsSound (rolled_back d) s = rollback-IsSound s
Step-IsSound (firmware_deployed n v h d) s =
    SameSystem-IsSound (deploy_firmware-SameSystem n v h d) s
Step-IsSound (firmware_probed now n d) s =
    SameSystem-IsSound (record_firmware_probe-SameSystem now n d) s
Step-IsSound (firmware_rolled_back n d) s = SameSystem-IsSound (rollback_firmware-SameSystem n d) s

pub Reachable-IsSound : {d : Deployment} → Reachable d → IsSound d
Reachable-IsSound (provisioned now id v h) = new-IsSound now id v h
Reachable-IsSound (next r s) = Step-IsSound s (Reachable-IsSound r)

abbrev fits : Option ℤ → ℤ → Bool
fits none v = true
fits (some kc) v = v =z kc

-- The kernelcache versions are those of the releases that they stand beside, where a release's name
-- ends in a number.
pub record IsCoupled (d : Deployment) : Type 0 where
  pub current : fits (kc_of d.rootfs.current) d.kernelcache.current_version ≡ true
  pub pending :
      has_pending d ≡ true → fits (kc_of d.rootfs.pending) d.kernelcache.pending_version ≡ true

new-IsCoupled : (now id v : Bytes) → IsCoupled (new now id v)
unfolding new
new-IsCoupled now id v = ground arith

SameSystem-IsCoupled : {d e : Deployment} → SameSystem d e → IsCoupled d → IsCoupled e
SameSystem-IsCoupled {d} {e} same s = ground arith

fallback-IsCoupled :
    (bs : Option BootState) {d : Deployment}
    → has_pending d ≡ true
    → IsCoupled d
    → IsCoupled (fallback_log bs d).0
unfolding fallback_log decrement_boot_attempt rollback
fallback-IsCoupled bs p s = ground arith

Step-IsCoupled : {d e : Deployment} → Step d e → IsCoupled d → IsCoupled e
unfolding deploy record_good_boot promote_running decrement_boot_attempt rollback
Step-IsCoupled (deployed v d) s = ground arith
Step-IsCoupled (hash_recorded h d) s = ground arith
Step-IsCoupled (fell_back bs d p) s = fallback-IsCoupled bs p s
Step-IsCoupled (recovery_recorded v now d) s = ground arith
Step-IsCoupled (booted now b d) s = ground (arith, =b_iff d.rootfs.current d.rootfs.pending)
Step-IsCoupled (promoted now d) s = ground arith
Step-IsCoupled (attempted d) s = ground arith
Step-IsCoupled (rolled_back d) s = ground arith
Step-IsCoupled (firmware_deployed n v h d) s =
    SameSystem-IsCoupled (deploy_firmware-SameSystem n v h d) s
Step-IsCoupled (firmware_probed now n d) s =
    SameSystem-IsCoupled (record_firmware_probe-SameSystem now n d) s
Step-IsCoupled (firmware_rolled_back n d) s =
    SameSystem-IsCoupled (rollback_firmware-SameSystem n d) s

-- In every log that a provisioned device reaches, the kernelcache's current and pending versions are
-- those of the releases that they stand beside, where a release's name ends in a number.
pub Reachable-IsCoupled : {d : Deployment} → Reachable d → IsCoupled d
Reachable-IsCoupled (provisioned now id v h) = new-IsCoupled now id v
Reachable-IsCoupled (next r s) = Step-IsCoupled s (Reachable-IsCoupled r)

-- What a step does to the anti-rollback counter and to the last known good release.
pub record Kept (d e : Deployment) : Type 0 where
  pub counter : e.anti_rollback.counter_value ≡ d.anti_rollback.counter_value
  pub good : e.rootfs.last_known_good ≡ d.rootfs.last_known_good

pub record Advanced (d e : Deployment) : Type 0 where
  pub in_flight : has_pending d ≡ true
  pub good : e.rootfs.last_known_good ≡ e.rootfs.current
  pub counter : e.anti_rollback.counter_value ≡ e.kernelcache.current_version
  pub done : has_pending e ≡ false

-- A boot that did not run the candidate, whatever the boot-state of the loader says.
pub fallback-Kept :
    (bs : Option BootState) (d : Deployment) → has_pending d ≡ true → Kept d (fallback_log bs d).0
unfolding fallback_log decrement_boot_attempt rollback
fallback-Kept bs d p = ground arith

Step-keeps_or_advances : {d e : Deployment} → Step d e → IsSound d → Kept d e ⊎ Advanced d e
unfolding deploy record_good_boot promote_running decrement_boot_attempt rollback
Step-keeps_or_advances (deployed v d) s = inl (ground arith)
Step-keeps_or_advances (hash_recorded h d) s = inl (record { counter = refl; good = refl })
Step-keeps_or_advances (fell_back bs d p) s = inl (fallback-Kept bs d p)
Step-keeps_or_advances (recovery_recorded v now d) s = inl (record { counter = refl; good = refl })
Step-keeps_or_advances (booted now b d) s = ground arith
Step-keeps_or_advances (promoted now d) s = ground arith
Step-keeps_or_advances (attempted d) s = inl (ground arith)
Step-keeps_or_advances (rolled_back d) s = inl (ground arith)
Step-keeps_or_advances (firmware_deployed n v h d) s =
    let t = deploy_firmware-SameSystem n v h d in inl (ground arith)
Step-keeps_or_advances (firmware_probed now n d) s =
    let t = record_firmware_probe-SameSystem now n d in inl (ground arith)
Step-keeps_or_advances (firmware_rolled_back n d) s =
    let t = rollback_firmware-SameSystem n d in inl (ground arith)

-- From a log that a provisioned device reaches, a transition or a write of the daemon leaves the
-- anti-rollback counter and the last known good release as they are, or has promoted a candidate in flight:
-- the last known good release is the current one, the counter its kernelcache version, and nothing is pending.
pub counter_moves_only_on_promotion :
    {d e : Deployment} → Reachable d → Step d e → Kept d e ⊎ Advanced d e
counter_moves_only_on_promotion r s = Step-keeps_or_advances s (Reachable-IsSound r)

-- A device that was provisioned with a named release has always a release to fall back to: it is never sent
-- to recovery.
pub Reachable-has_fallback :
    {d : Deployment}
    → Reachable d
    → (needs_recovery d ≡ false) × (pick_boot_target (some d) ≢ some (Slot.recovery, Slot.recovery))
unfolding pick_boot_target needs_recovery
Reachable-has_fallback {d} r = let s = Reachable-IsSound r in ground arith
