-- ===== src/Deployment/History/Trials.antt =====
-- A candidate's trial: so many good boots promote it, so many failed ones abandon it.
use atom_loops.Prelude.{ℕ, zero, suc, ◌-◌, ◌≤◌, ◌<◌, true, false, ◌≡◌, ◌==◌, [], arith}
use atom_loops.Prelude.Text.{Bytes, is_empty, =b_iff}
use atom_loops.Prelude.Int.{pos, int_max}
use atom_loops.Deployment.State.{Deployment}
use atom_loops.Deployment.Transition.{deploy, record_good_boot, decrement_boot_attempt, rollback}
use atom_loops.Deployment.History.{good_boots, failed_boots}

-- After `k` good boots of the candidate `v`, deployed over `d`.
record OnTrial (v : Bytes) (d : Deployment) (k : ℕ) (e : Deployment) : Type 0 where
  pending : e.rootfs.pending ≡ v
  boots : e.kernelcache.stable_boots ≡ pos k
  threshold : e.kernelcache.stable_threshold ≡ d.kernelcache.stable_threshold
  good : e.rootfs.last_known_good ≡ d.rootfs.last_known_good
  counter : e.anti_rollback.counter_value ≡ d.anti_rollback.counter_value
  budget : e.rootfs.boot_attempts ≡ d.rootfs.max_attempts
  limit : e.rootfs.max_attempts ≡ d.rootfs.max_attempts

module _ (now v : Bytes) (d : Deployment) (named : is_empty v ≡ false) (t : ℕ) (small : t < int_max)
    (threshold : d.kernelcache.stable_threshold ≡ pos (suc t)) where
  OnTrial-step :
      (k : ℕ) (e : Deployment)
      → k < t
      → OnTrial v d k e
      → OnTrial v d (suc k) (record_good_boot now true e).0
  unfolding record_good_boot
  OnTrial-step k e h o = ground arith

  OnTrial-good_boots : (k : ℕ) → k ≤ t → OnTrial v d k (good_boots now k (deploy v d))
  unfolding good_boots deploy
  OnTrial-good_boots zero h = ground arith
  OnTrial-good_boots (suc k) h =
      OnTrial-step k (good_boots now k (unfold deploy in deploy v d)) (omega arith)
        (OnTrial-good_boots k (omega arith))

  OnTrial-last :
      (e : Deployment)
      → OnTrial v d t e
      → let (f, promoted) = record_good_boot now true e in
        (promoted ≡ true)
        × (f.rootfs.current ≡ v)
        × (f.rootfs.last_known_good ≡ v)
        × (f.rootfs.pending ≡ [])
  unfolding record_good_boot
  OnTrial-last e o = ground (arith, =b_iff e.rootfs.current e.rootfs.pending)

  -- A candidate deployed over a log with threshold t + 1 (in the range of `int`) is not promoted by k
  -- good boots in a row, for k up to t: the last known good release and the counter are those of before,
  -- and the candidate is still pending. The good boot after t of them promotes it: it is current and last
  -- known good, and nothing is pending.
  pub good_boots_promote :
      (k : ℕ)
      → k ≤ t
      → let e = good_boots now k (deploy v d) in
        let (f, promoted) = record_good_boot now true (good_boots now t (deploy v d)) in
        (e.rootfs.last_known_good ≡ d.rootfs.last_known_good)
        × (e.anti_rollback.counter_value ≡ d.anti_rollback.counter_value)
        × (e.rootfs.pending ≡ v)
        × ((promoted ≡ true)
            × (f.rootfs.current ≡ v)
            × (f.rootfs.last_known_good ≡ v)
            × (f.rootfs.pending ≡ []))
  good_boots_promote k h =
      let o = OnTrial-good_boots k h in
      (
        o.good,
        o.counter,
        o.pending,
        OnTrial-last (good_boots now t (deploy v d)) (OnTrial-good_boots t (omega arith)),
      )

-- After `k` failed boots of the candidate `v`, deployed over `d` with the budget `m`.
record Draining (v : Bytes) (d : Deployment) (m k : ℕ) (e : Deployment) : Type 0 where
  pending : e.rootfs.pending ≡ v
  budget : e.rootfs.boot_attempts ≡ pos (m - k)
  good : e.rootfs.last_known_good ≡ d.rootfs.last_known_good
  current : e.rootfs.current ≡ d.rootfs.current
  counter : e.anti_rollback.counter_value ≡ d.anti_rollback.counter_value

module _ (v : Bytes) (d : Deployment) (named : is_empty v ≡ false) (m : ℕ)
    (limit : d.rootfs.max_attempts ≡ pos (suc m)) where
  Draining-step :
      (k : ℕ) (e : Deployment)
      → k < suc m
      → Draining v d (suc m) k e
      → Draining v d (suc m) (suc k) (decrement_boot_attempt e).0
  unfolding decrement_boot_attempt
  Draining-step k e h o = ground arith

  Draining-failed_boots : (k : ℕ) → k ≤ suc m → Draining v d (suc m) k (failed_boots k (deploy v d))
  unfolding failed_boots
  Draining-failed_boots zero h = unfold deploy in ground arith
  Draining-failed_boots (suc k) h =
      Draining-step k (failed_boots k (deploy v d)) (omega arith)
        (Draining-failed_boots k (omega arith))

  Draining-exhausted :
      (k : ℕ) (e : Deployment)
      → Draining v d (suc m) k e
      → k ≤ m
      → (decrement_boot_attempt e).1 ≡ (k == m)
  unfolding decrement_boot_attempt
  Draining-exhausted k e o h = ground arith

  rollback-good :
      (e : Deployment)
      → Draining v d (suc m) (suc m) e
      → is_empty d.rootfs.last_known_good ≡ false
      → ((rollback e).rootfs.current ≡ d.rootfs.last_known_good)
        × ((rollback e).rootfs.pending ≡ [])
        × ((rollback e).anti_rollback.counter_value ≡ d.anti_rollback.counter_value)
  unfolding rollback
  rollback-good e o good = ground arith

  -- A candidate deployed with a budget of m + 1 attempts, over a log with a last known good release,
  -- that never boots: after k failed boots in a row, for k up to m, the next one reports that the budget
  -- is spent exactly where k is m, and the rollback after m + 1 of them returns to that release with
  -- nothing pending and the counter unmoved.
  pub failed_boots_abandon :
      is_empty d.rootfs.last_known_good ≡ false
      → (k : ℕ) → k ≤ m
      → let e = rollback (failed_boots (suc m) (deploy v d)) in
        ((decrement_boot_attempt (failed_boots k (deploy v d))).1 ≡ (k == m))
        × ((e.rootfs.current ≡ d.rootfs.last_known_good)
            × (e.rootfs.pending ≡ [])
            × (e.anti_rollback.counter_value ≡ d.anti_rollback.counter_value))
  failed_boots_abandon good k h = (
    Draining-exhausted k (failed_boots k (deploy v d)) (Draining-failed_boots k (omega arith)) h,
    rollback-good (failed_boots (suc m) (deploy v d)) (Draining-failed_boots (suc m) (omega arith))
        good,
  )
