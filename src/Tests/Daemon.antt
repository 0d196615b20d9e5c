-- ===== src/Tests/Daemon.antt =====
-- The daemon after a boot that did not run the candidate.
use atom_loops.Prelude.{◌≡◌, ◌⊎◌, refl, true, false, none, some, [], arith}
use atom_loops.Prelude.Text.{codes}
use atom_loops.System.Files.{FilePath, join, update, File}
use atom_loops.System.Io.{
  World, Io, attempt, ◌>>=◌, read_file, call, settle, create_temp, fresh, write, rename, remove,
}
use atom_loops.System.Triple.{Triple}
use atom_loops.Deployment.State.{Deployment}
use atom_loops.Deployment.Transition.{new, deploy, decrement_boot_attempt}
use atom_loops.Deployment.History.{Reachable, deployed, hash_recorded, provisioned, next}
use atom_loops.Deployment.History.Invariants.{Kept}
use atom_loops.Deployment.Wal.{Json, load, save, write_file_sync, fsync_dir}
use atom_loops.Otad.BootState.{BootState, no_state}
use atom_loops.Otad.Slots.{StageDirs, promote_slots, write_boot_state, write_deployment_boot_state}
use atom_loops.Otad.Slots.Promotion.{promote_slots-Keeps}
use atom_loops.Otad.Slots.Written.{write_boot_state-read, state_at}
use atom_loops.Otad.Health.{Health, missing, run_health_checks}
use atom_loops.Otad.Identity.{booted_identity, identity_is_confirmed}
use atom_loops.Otad.Daemon.{Report, not_booted, boot_success, fallback_log}
use atom_loops.Otad.Daemon.Fallback.{fallback_never_promotes, Returned, StillOnTrial}
use atom_loops.Otad.Daemon.Identity.{boot_success-FellBack, FellBack}

abbrev old_log : Deployment
old_log = new (codes "now") (codes "device") (codes "rel1")

-- The log after a staging of rel2.
abbrev trial_log : Deployment
trial_log =
    let d = deploy (codes "rel2") old_log in
    record d { rootfs = record d.rootfs { pending_hash = codes "aa" } }

trial_log-Reachable : Reachable trial_log
trial_log-Reachable =
    next
      (next (provisioned (codes "now") (codes "device") (codes "rel1") refl)
        (deployed (codes "rel2") old_log))
      (hash_recorded (codes "aa") (deploy (codes "rel2") old_log))

abbrev exhausted_state : BootState
exhausted_state = record no_state { target = codes "active" }

fallback_never_promotes_example :
    let (e, exhausted) = fallback_log (some exhausted_state) trial_log in
    Kept trial_log e
    × (exhausted ≡ true → Returned trial_log e)
    × (exhausted ≡ false → StillOnTrial trial_log e)
unfolding deploy
fallback_never_promotes_example =
    fallback_never_promotes (some exhausted_state) trial_log-Reachable refl

abbrev trial_json : Json
trial_json = record { encode = λ d. some (codes "log"); decode = λ b. some trial_log }

abbrev wal : FilePath
wal = join (codes "/sysdata/boot") (codes "deployment.json")

abbrev pub healthy : Health
healthy = record { listing = missing; passes = λ s. true }

abbrev no_esp : StageDirs
no_esp = record { rootfs_dir = codes "/boot/rootfs"; esp = []; firmware_dir = [] }

abbrev world : World
world = record {
  files = update (λ p. none) wal (some (record { inode = 0; content = codes "log" }));
  next = 1;
  faults = [];
}

-- The command line names no release.
abbrev booted : Io Report
booted = boot_success trial_json (λ b. b) healthy (codes "now") none none wal no_esp

boot_success-FellBack_example :
    FellBack trial_json wal no_esp trial_log (not_booted false) (booted world).1
unfolding deploy load attempt ◌>>=◌ read_file call boot_success fallback_log save
    identity_is_confirmed booted_identity write_deployment_boot_state settle write_file_sync
    create_temp fresh write rename fsync_dir remove decrement_boot_attempt new run_health_checks
boot_success-FellBack_example =
    boot_success-FellBack trial_json (λ b. b) healthy (codes "now") none none wal no_esp world world
      trial_log (not_booted false) refl refl refl refl

write_boot_state-read_example :
    Triple
      (λ f. state_at f (join (codes "/efi") (codes "boot-state")) ≡ none)
      (write_boot_state (join (codes "/efi") (codes "boot-state")) exhausted_state)
      (λ f.
        (state_at f (join (codes "/efi") (codes "boot-state")) ≡ none)
        ⊎ (state_at f (join (codes "/efi") (codes "boot-state")) ≡ some exhausted_state))
      (λ _ f. state_at f (join (codes "/efi") (codes "boot-state")) ≡ some exhausted_state)
write_boot_state-read_example =
    write_boot_state-read (codes "/efi") (codes "boot-state") exhausted_state none refl
      (omega arith)

abbrev two_dirs : StageDirs
two_dirs = record { rootfs_dir = codes "/boot/rootfs"; esp = codes "/efi"; firmware_dir = [] }

abbrev staged : File
staged = record { inode = 9; content = codes "candidate" }

-- The file of the candidate is no target of the promotion.
promote_slots-Keeps_example :
    Triple
      (λ f. f (join (codes "/boot/rootfs") (codes "rootfs-next.erofs")) ≡ some staged)
      (promote_slots (λ b. b) two_dirs)
      (λ f. f (join (codes "/boot/rootfs") (codes "rootfs-next.erofs")) ≡ some staged)
      (λ _ f. f (join (codes "/boot/rootfs") (codes "rootfs-next.erofs")) ≡ some staged)
promote_slots-Keeps_example =
    promote_slots-Keeps (λ b. b) two_dirs (join (codes "/boot/rootfs") (codes "rootfs-next.erofs"))
      (some staged) refl refl
