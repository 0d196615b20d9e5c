-- ===== src/Deployment/History/Unlabelled.antt =====
-- A release whose name does not end in a number.
use atom_loops.Prelude.{true, false, ◌≡◌, none, arith}
use atom_loops.Prelude.Text.{Bytes, is_empty, ◌=b◌}
use atom_loops.Prelude.Int.{pos}
use atom_loops.Deployment.State.{Deployment}
use atom_loops.Deployment.Transition.{kc_of, deploy, record_good_boot}

-- A release with a name that carries no version, deployed over a log with threshold 1 whose pending
-- kernelcache version is 0 and whose current release has another name, and booted well, is promoted, and the
-- anti-rollback counter of the log falls to 0 whatever it was.
pub unlabelled_resets_counter :
    (now v : Bytes) (d : Deployment)
    → is_empty v ≡ false
    → kc_of v ≡ none
    → d.kernelcache.pending_version ≡ pos 0
    → d.kernelcache.stable_threshold ≡ pos 1
    → d.rootfs.current =b v ≡ false
    → let (e, promoted) = record_good_boot now true (deploy v d) in
      (promoted ≡ true) × (e.rootfs.last_known_good ≡ v) × (e.anti_rollback.counter_value ≡ pos 0)
unfolding deploy record_good_boot
unlabelled_resets_counter now v d h k p t c = ground arith
