-- ===== src/Otad/Daemon.antt =====
-- internal/otad/otad.go: what the daemon does once a boot is over, and the verbs on the log.
pub mod Fallback
pub mod Identity
use atom_loops.Prelude.{
  ℕ, Bool, true, false, not, ◌&&◌, Option, none, some, List, [], ◌∷◌, ltb, if◌then◌else◌,
}
use atom_loops.Prelude.Text.{Bytes, codes, is_empty, is_space, ◌=b◌, fields_func, cut_prefix}
use atom_loops.Prelude.Int.{ℤ, pos, ltb_ℤ, leb_ℤ, to_uint}
use atom_loops.System.Files.{FilePath}
use atom_loops.System.Io.{
  Io, Error, flush, pure, throw, attempt, ignore, label, settle, read_file, ◌>>=◌, ◌>>◌,
}
use atom_loops.Deployment.State.{Deployment, has_pending}
use atom_loops.Deployment.Transition.{
  new, deploy, record_good_boot, decrement_boot_attempt, rollback,
}
use atom_loops.Deployment.Wal.{Json, load, save}
use atom_loops.Otad.BootState.{BootState, no_state, read_state}
use atom_loops.Otad.Counter.{CounterStore}
use atom_loops.Otad.Slots.{
  StageDirs, write_boot_state, boot_state_path, write_deployment_boot_state, promote_slots,
  cleanup_next_slots,
}
use atom_loops.Otad.Health.{Health, run_health_checks}
use atom_loops.Otad.Loader.Image.{LoaderReport, handle_loader_candidate}
use atom_loops.Otad.Recovery.{repair_recovery_slot}
use atom_loops.Otad.Identity.{booted_identity, identity_is_confirmed}

set_attempts : ℤ → Deployment → Deployment × Bool
set_attempts n d = (record d { rootfs = record d.rootfs { boot_attempts = n } }, leb_ℤ n (pos 0))

-- The attempts that are left, from the loader's boot-state where it can be trusted, and whether they
-- are spent.
reconcile : Option BootState → Deployment → Deployment × Bool
reconcile none d = decrement_boot_attempt d
reconcile (some bs) d =
    if bs.target =b codes "active"
    then set_attempts (pos 0) d
    else (if bs.target =b codes "next" && bs.trial && leb_ℤ bs.attempts d.rootfs.boot_attempts
        then set_attempts bs.attempts d
        else decrement_boot_attempt d)

-- The log after a boot that did not run the candidate, and whether the budget is spent.
unfoldable pub fallback_log : Option BootState → Deployment → Deployment × Bool
unfolding reconcile set_attempts
fallback_log bs d =
    let k = record d.kernelcache { stable_boots = pos 0 } in
    let (e, exhausted) = reconcile bs (record d { kernelcache = k }) in
    (if exhausted then rollback e else e, exhausted)

-- What BootSuccess reports; the texts of its messages are not modelled.
pub data Report : Type 0 where
  stable : LoaderReport → Report
  not_booted : Bool → Report
  promoted : ℤ → Report
  good_boot : ℤ → ℤ → Report

-- The retry of the counter on a boot without a candidate.
unfoldable pub reconcile_counter : Option CounterStore → Deployment → Io (Unit {0})
reconcile_counter none d = pure tt
reconcile_counter (some s) d =
    let value = d.anti_rollback.counter_value in
    if ltb_ℤ (pos 0) value
    then attempt s.read
        (λ cur. if ltb cur (to_uint value) then ignore (s.advance (to_uint value)) else pure tt)
        (λ _. pure tt)
    else pure tt

-- The store of the counter is told of a promotion.
arm_counter : Option CounterStore → ℤ → Io (Unit {0})
arm_counter none value = pure tt
arm_counter (some s) value = label "arming anti-rollback counter failed" (s.advance (to_uint value))

module _ (json : Json) (sha256 : Bytes → Bytes) (health : Health) (now : Bytes)
    (cmdline : Option Bytes) (store : Option CounterStore) (wal : FilePath) (dirs : StageDirs) where
  -- What follows HandleLoaderCandidate, with its result.
  stable_rest : Deployment → Io LoaderReport → Io Report
  stable_rest d loader = do
    ignore (repair_recovery_slot dirs)
    label "stable boot-state reconciliation failed" (write_deployment_boot_state d dirs)
    flush
    cleanup_next_slots dirs
    flush
    msg ← loader
    pure (stable msg)

  stable_boot : Deployment → Io Report
  stable_boot d = do
    reconcile_counter store d
    attempt (handle_loader_candidate sha256 dirs) (λ msg. stable_rest d (pure msg))
        (λ e. stable_rest d (throw e))

  loader_state : Io (Option BootState)
  loader_state =
      if is_empty dirs.esp
      then pure none
      else attempt (read_file (boot_state_path dirs)) (λ b. pure (some (read_state b)))
          (λ _. pure none)

  commit_fallback : Deployment × Bool → Io Report
  commit_fallback (e, exhausted) = do
    label "fallback boot-state commit failed" (write_deployment_boot_state e dirs)
    flush
    save json wal e
    if exhausted then cleanup_next_slots dirs >> flush else pure tt
    pure (not_booted exhausted)

  commit_good_boot : Deployment × Bool → Io Report
  commit_good_boot (e, true) = do
    label "slot promotion failed" (promote_slots sha256 dirs)
    flush
    if is_empty dirs.esp
        then pure tt
        else label "boot-state commit failed"
            (write_boot_state (boot_state_path dirs) (record no_state { target = codes "active" }))
    flush
    save json wal e
    cleanup_next_slots dirs
    flush
    arm_counter store e.anti_rollback.counter_value
    pure (promoted e.anti_rollback.counter_value)
  commit_good_boot (e, false) = do
    label "trial boot-state commit failed" (write_deployment_boot_state e dirs)
    flush
    save json wal e
    pure (good_boot e.kernelcache.stable_boots e.kernelcache.stable_threshold)

  candidate_boot : Deployment → Bool → Io Report
  candidate_boot d true = commit_good_boot (record_good_boot now true d)
  candidate_boot d false = loader_state >>= λ bs. commit_fallback (fallback_log bs d)

  healthy_boot : Deployment → Io Report
  healthy_boot d = do
    label "health gate failed, candidate left unconfirmed" (run_health_checks health)
    candidate_boot d (identity_is_confirmed (booted_identity cmdline) d)

  unfoldable pub boot_success : Io Report
  unfolding healthy_boot candidate_boot commit_good_boot commit_fallback loader_state stable_boot
      stable_rest arm_counter
  boot_success = do d ← load json wal; if has_pending d then healthy_boot d else stable_boot d

-- Init, Deploy and Rollback of the daemon: the log that is saved.
module _ (json : Json) (wal : FilePath) where
  -- Init
  unfoldable pub init_verb : Bytes → Bytes → Bytes → Io (Unit {0})
  init_verb now device version = save json wal (new now device version)

  unfoldable pub deploy_verb : Bytes → Io Deployment
  deploy_verb version = do
    d ← load json wal
    save json wal (deploy version d)
    pure (deploy version d)

  unfoldable pub rollback_verb : StageDirs → Io Deployment
  rollback_verb dirs = do
    d ← load json wal
    label "rollback boot-state commit failed" (write_deployment_boot_state (rollback d) dirs)
    save json wal (rollback d)
    pure (rollback d)

  -- SyncBootState
  unfoldable pub sync_boot_state : StageDirs → Io (Unit {0})
  sync_boot_state dirs = load json wal >>= λ d. write_deployment_boot_state d dirs
