-- ===== src/Deployment/Transition/Invariant.antt =====
-- What holds of a log between two transitions, and of every log that a device can reach.
use atom_loops.Prelude.{Bool, true, false, ◌≡◌, ◌⊎◌, arith}
use atom_loops.Prelude.Text.{Bytes, is_empty}
use atom_loops.Prelude.Int.{pos, leb_ℤ}
use atom_loops.Deployment.State.{Deployment, kc_stable, kc_updating, has_pending}
use atom_loops.Deployment.Transition.{
  new, deploy, record_good_boot, promote_running, decrement_boot_attempt, rollback,
}

-- Nothing is in flight, and the counters are clear.
pub record IsIdle (d : Deployment) : Type 0 where
  pub state : d.kernelcache.state ≡ kc_stable
  pub attempts : d.rootfs.boot_attempts ≡ pos 0
  pub boots : d.kernelcache.stable_boots ≡ pos 0

-- A release without a name was deployed: the state is that of a candidate, with a full budget.
pub record IsUnnamed (d : Deployment) : Type 0 where
  pub state : d.kernelcache.state ≡ kc_updating
  pub attempts : d.rootfs.boot_attempts ≡ d.rootfs.max_attempts
  pub boots : d.kernelcache.stable_boots ≡ pos 0

-- With a candidate in flight the kernelcache's state says so and the budget is within its limit; without
-- one the log is idle, or a release without a name was deployed; and there is a version to fall back to.
pub record IsSound (d : Deployment) : Type 0 where
  pub updating : has_pending d ≡ true → d.kernelcache.state ≡ kc_updating
  pub idle : has_pending d ≡ false → IsIdle d ⊎ IsUnnamed d
  pub budget : has_pending d ≡ true → leb_ℤ d.rootfs.boot_attempts d.rootfs.max_attempts ≡ true
  pub fallback : is_empty d.rootfs.last_known_good ≡ false
  pub running : is_empty d.rootfs.current ≡ false

pub new-IsSound : (now id v : Bytes) → is_empty v ≡ false → IsSound (new now id v)
unfolding new
new-IsSound now id v h = ground arith

pub deploy-IsSound : (v : Bytes) {d : Deployment} → IsSound d → IsSound (deploy v d)
unfolding deploy
deploy-IsSound v s = ground arith

pub promote_running-IsSound :
    (now : Bytes) {d : Deployment} → IsSound d → IsSound (promote_running now d)
unfolding promote_running
promote_running-IsSound now s = ground arith

pub record_good_boot-IsSound :
    (now : Bytes) (b : Bool) {d : Deployment} → IsSound d → IsSound (record_good_boot now b d).0
unfolding record_good_boot
record_good_boot-IsSound now b s = ground arith

pub decrement-IsSound : {d : Deployment} → IsSound d → IsSound (decrement_boot_attempt d).0
unfolding decrement_boot_attempt
decrement-IsSound s = ground arith

pub rollback-IsSound : {d : Deployment} → IsSound d → IsSound (rollback d)
unfolding rollback
rollback-IsSound s = ground arith
