-- ===== src/Otad/Promote.antt =====
-- internal/otad/promote.go: a candidate that runs, and booted well before, is promoted ahead of the next
-- update.
use atom_loops.Prelude.{Bool, true, false, not, ◌||◌, if◌then◌else◌}
use atom_loops.Prelude.Text.{codes, is_empty}
use atom_loops.Prelude.Int.{pos, ltb_ℤ}
use atom_loops.System.Files.{FilePath}
use atom_loops.System.Io.{Io, pure, flush, ◌>>=◌, ◌>>◌}
use atom_loops.Deployment.State.{Deployment, has_pending}
use atom_loops.Deployment.Transition.{promote_running}
use atom_loops.Deployment.Wal.{load, save}
use atom_loops.Otad.BootState.{no_state}
use atom_loops.Otad.Identity.{booted_identity, identity_is_confirmed}
use atom_loops.Otad.Outside.{Outside}
use atom_loops.Otad.Slots.{
  StageDirs, write_boot_state, boot_state_path, promote_slots, cleanup_next_slots,
}

module _ (ext : Outside) (wal : FilePath) (dirs : StageDirs) where
  open ext use {json, sha256, timestamp, cmdline}

  promote_candidate : Deployment → Io Bool
  promote_candidate d = do
    promote_slots sha256 dirs
    flush
    if is_empty dirs.esp
        then pure tt
        else write_boot_state (boot_state_path dirs) (record no_state { target = codes "active" })
    flush
    save json wal (promote_running timestamp d)
    cleanup_next_slots dirs
    flush
    pure true

  promote_loaded : Deployment → Io Bool
  promote_loaded d =
      if not (has_pending d) || ltb_ℤ d.kernelcache.stable_boots (pos 1)
      then pure false
      else (if not (identity_is_confirmed (booted_identity cmdline) d)
          then pure false
          else promote_candidate d)

  unfoldable pub promote_running_candidate : Io Bool
  unfolding promote_loaded promote_candidate
  promote_running_candidate = load json wal >>= promote_loaded
