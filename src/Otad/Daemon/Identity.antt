-- ===== src/Otad/Daemon/Identity.antt =====
-- A boot that did not run the candidate is not credited to it.
use atom_loops.Prelude.{◌≡◌, ap, sym, Bool, true, false, Option, if◌then◌else◌}
use atom_loops.Prelude.Text.{Bytes}
use atom_loops.System.Files.{FilePath}
use atom_loops.System.Io.{World, done, flush, pure, ◌>>◌}
use atom_loops.System.Runs.{Ran, Ran-done, Ran-bind}
use atom_loops.Deployment.State.{Deployment, has_pending}
use atom_loops.Deployment.Wal.{Json, load, save}
use atom_loops.Deployment.History.Invariants.{Kept, fallback-Kept}
use atom_loops.Otad.BootState.{BootState}
use atom_loops.Otad.Counter.{CounterStore}
use atom_loops.Otad.Slots.{StageDirs, cleanup_next_slots}
use atom_loops.Otad.Health.{Health}
use atom_loops.Otad.Identity.{booted_identity, identity_is_confirmed}
use atom_loops.Otad.Daemon.{
  Report, not_booted, boot_success, commit_fallback, candidate_boot, healthy_boot, fallback_log,
  stable_boot,
}

-- The run saved the log of a fallback from d, which has the anti-rollback counter and the last known good
-- release of d, and went from there to its end: only the next slots are removed, where the budget is spent.
pub record FellBack (json : Json) (wal : FilePath) (dirs : StageDirs) (d : Deployment) (r : Report)
    (final : World) : Type 0 where
  pub loader : Option BootState
  pub before : World
  pub after : World
  pub saved : Ran (save json wal (fallback_log loader d).0) before tt after
  pub finished :
      Ran
        (if (fallback_log loader d).1 then cleanup_next_slots dirs >> flush else pure tt)
        after
        tt
        final
  pub report : r ≡ not_booted (fallback_log loader d).1
  pub kept : Kept d (fallback_log loader d).0

module _ (json : Json) (sha256 : Bytes → Bytes) (health : Health) (now : Bytes)
    (cmdline : Option Bytes) (store : Option CounterStore) (wal : FilePath) (dirs : StageDirs) where
  abbrev Saves : Deployment × Bool → World → Report → World → Type 0
  Saves x w r v =
      (u : World) × (y : World) × Ran (save json wal x.0) u tt y
      × Ran (if x.1 then cleanup_next_slots dirs >> flush else pure tt) y tt v
      × (r ≡ not_booted x.1)

  commit_lem :
      (x : Deployment × Bool) (w v : World) (r : Report)
      → Ran (commit_fallback json sha256 health now cmdline store wal dirs x) w r v
      → Saves x w r v
  unfolding commit_fallback
  commit_lem (e, b) w v r h =
      let (_, _, _, h1) = Ran-bind _ h in
      let (_, u, _, h2) = Ran-bind _ h1 in
      let (_, y, s, h3) = Ran-bind _ h2 in
      let (_, z, c, h4) = Ran-bind _ h3 in
      let p = h4.run in
      let q : not_booted b ≡ r = cc in
      let t : z ≡ v = ap (λ x. x.1) p in (u, y, s, rw (← t) c, sym q)

  candidate_lem :
      (d : Deployment) (b : Bool) (w v : World) (r : Report)
      → b ≡ false
      → has_pending d ≡ true
      → Ran (candidate_boot json sha256 health now cmdline store wal dirs d b) w r v
      → FellBack json wal dirs d r v
  unfolding candidate_boot
  candidate_lem d true w v r n p h = cc
  candidate_lem d false w v r n p h =
      let (bs, u, _, h1) = Ran-bind _ h in
      let (x, y, s, f, e) = commit_lem (fallback_log bs d) u v r h1 in
      record {
        loader = bs;
        before = x;
        after = y;
        saved = s;
        finished = f;
        report = e;
        kept = fallback-Kept bs d p;
      }

  after_load :
      (d : Deployment) (b : Bool) (w v : World) (r : Report)
      → b ≡ true
      → has_pending d ≡ true
      → identity_is_confirmed (booted_identity cmdline) d ≡ false
      → Ran
          (if b
            then healthy_boot json sha256 health now cmdline store wal dirs d
            else stable_boot json sha256 health now cmdline store wal dirs d)
          w
          r
          v
      → FellBack json wal dirs d r v
  unfolding healthy_boot
  after_load d true w v r p q n h =
      let (_, u, _, h1) = Ran-bind _ h in candidate_lem d _ u v r n q h1
  after_load d false w v r p q n h = cc

  -- Where the log that loads has a candidate, and the command line of the running system does not name
  -- the candidate's root hash and release, a BootSuccess that returns has saved the log of a fallback, in which
  -- the anti-rollback counter and the last known good release are what they were, has done nothing after that
  -- but remove the next slots where the budget is spent, and reports that the candidate did not boot.
  pub boot_success-FellBack :
      (w v : World) (d : Deployment) (r : Report)
      → load json wal w ≡ (done d, v)
      → has_pending d ≡ true
      → identity_is_confirmed (booted_identity cmdline) d ≡ false
      → (boot_success json sha256 health now cmdline store wal dirs w).0 ≡ done r
      → FellBack json wal dirs d r (boot_success json sha256 health now cmdline store wal dirs w).1
  unfolding boot_success
  boot_success-FellBack w v d r l p n h =
      let (e, u, k, h1) = Ran-bind _ (Ran-done _ w r h) in
      let x = k.run in
      let i : e ≡ d = cc in let j = rw i at h1 in after_load d (has_pending d) u _ r p p n j
