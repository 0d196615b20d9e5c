-- ===== src/Otad/Daemon/Fallback.antt =====
-- A boot that did not run the candidate.
use atom_loops.Prelude.{◌≡◌, true, false, Option, arith}
use atom_loops.Prelude.Int.{pos, ltb_ℤ, leb_ℤ}
use atom_loops.Deployment.State.{Deployment, has_pending}
use atom_loops.Deployment.Transition.{decrement_boot_attempt, rollback}
use atom_loops.Deployment.Transition.Invariant.{IsSound}
use atom_loops.Deployment.History.{Reachable}
use atom_loops.Deployment.History.Invariants.{Reachable-IsSound, Kept, fallback-Kept}
use atom_loops.Otad.BootState.{BootState}
use atom_loops.Otad.Daemon.{fallback_log}

-- The candidate stays on trial with attempts left, no more than before.
pub record StillOnTrial (d e : Deployment) : Type 0 where
  pub pending : e.rootfs.pending ≡ d.rootfs.pending
  pub some_left : ltb_ℤ (pos 0) e.rootfs.boot_attempts ≡ true
  pub no_more : leb_ℤ e.rootfs.boot_attempts d.rootfs.boot_attempts ≡ true

-- The device is back on its last known good release.
pub record Returned (d e : Deployment) : Type 0 where
  pub current : e.rootfs.current ≡ d.rootfs.last_known_good
  pub done : has_pending e ≡ false

fallback-Returned :
    (bs : Option BootState) (d : Deployment)
    → IsSound d
    → has_pending d ≡ true
    → (fallback_log bs d).1 ≡ true
    → Returned d (fallback_log bs d).0
unfolding fallback_log decrement_boot_attempt rollback
fallback-Returned bs d s p h = ground arith

fallback-StillOnTrial :
    (bs : Option BootState) (d : Deployment)
    → IsSound d
    → has_pending d ≡ true
    → (fallback_log bs d).1 ≡ false
    → StillOnTrial d (fallback_log bs d).0
unfolding fallback_log decrement_boot_attempt rollback
fallback-StillOnTrial bs d s p h = ground arith

-- A boot that did not run the candidate of a log that a provisioned device reaches, whatever the
-- boot-state of the loader says: the log that is saved has the anti-rollback counter and the last known
-- good release of before; where the budget is spent it returns to that release with nothing pending, and
-- else the candidate stays pending with attempts left, no more than before.
pub fallback_never_promotes :
    {d : Deployment} (bs : Option BootState)
    → Reachable d
    → has_pending d ≡ true
    → let (e, exhausted) = fallback_log bs d in
      Kept d e × (exhausted ≡ true → Returned d e) × (exhausted ≡ false → StillOnTrial d e)
fallback_never_promotes {d} bs r p = (
  fallback-Kept bs d p,
  fallback-Returned bs d (Reachable-IsSound r) p,
  fallback-StillOnTrial bs d (Reachable-IsSound r) p,
)
