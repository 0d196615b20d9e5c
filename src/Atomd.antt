-- ===== src/Atomd.antt =====
-- cmd/atomd: the daemon's commands, behind the parse of their flags, and what they print. package flag, the
-- scheduler of go-foundation and the HTTP server are not modelled: a command comes with the values of its
-- flags, and `fires` is how often the schedule fires before the daemon is stopped.
pub mod Inert
use atom_loops.Prelude.{ℕ, zero, suc, Bool, true, false, not, Option, none, some, [], if◌then◌else◌}
use atom_loops.Prelude.Text.{Bytes, is_empty, codes}
use atom_loops.System.Files.{FilePath, suffixed}
use atom_loops.System.Io.{Io, Error, pure, throw, attempt, ignore, found, read_file, ◌>>=◌, ◌>>◌}
use atom_loops.Otad.Counter.{CounterStore, file_counter, read_command, advance_command}
use atom_loops.Otad.Health.{Health}
use atom_loops.Otad.Slots.{StageDirs}
use atom_loops.Otad.Outside.{Outside}
use atom_loops.Otad.Daemon.{Report, boot_success, init_verb, deploy_verb, rollback_verb}
use atom_loops.Otad.Confirm.{firmware_boot_confirm, firmware_boot_confirm_all}
use atom_loops.Otad.Stage.{StageReport, stage}
use atom_loops.Otad.Recovery.{stage_recovery}
use atom_loops.Otad.Loader.{read_loader_status}
use atom_loops.Otad.Loader.Image.{stage_loader, repair_loader}
use atom_loops.Audit.{Event, EventJson, append_event}

-- The shell commands of the hardware counter, where both flags are given.
pub record CounterCommands : Type 0 where
  pub read_cmd : Io Bytes
  pub advance_cmd : ℕ → Io (Unit {0})

unfoldable pub pick_counter : FilePath → Option CounterCommands → CounterStore
pick_counter p none = file_counter p
pick_counter p (some c) = record {
  read = read_command c.read_cmd c.advance_cmd;
  advance = advance_command c.read_cmd c.advance_cmd;
}

-- The flags that several commands share.
pub record Flags : Type 0 where
  pub wal : FilePath
  pub dirs : StageDirs
  pub pubkey : FilePath
  pub manifest : Bytes
  pub revocation : Bytes
  pub counter : FilePath
  pub counter_commands : Option CounterCommands
  pub audit : FilePath
  pub installed_marker : FilePath

pub data Command : Type 0 where
  init_log : Bytes → Bytes → Command
  run_daemon_for : ℕ → Command
  stage_release : Command
  confirm_boot : Command
  deploy_release : Bytes → Command
  roll_back : Command
  confirm_firmware : Bytes → Bool → Command
  loader_status : Command
  loader_update : Bool → Command
  loader_repair : FilePath → Option FilePath → Command
  recovery_update : Command
  show_version : Command
  usage_error : Command

-- report: the exit status.
unfoldable pub report : {A : Type 0} → Io A → Io ℕ
report m = attempt m (λ _. pure 0) (λ _. pure 1)

-- isInstalled
unfoldable pub is_installed : FilePath → Io Bool
is_installed marker = found marker

-- The texts that the daemon reports with.
pub record Messages : Type 0 where
  pub of_boot : Report → Bytes
  pub of_stage : StageReport → Bytes

-- The directories that a command passes on; it leaves the others empty.
slot_dirs : StageDirs → StageDirs
slot_dirs d = record d { firmware_dir = [] }

esp_only : StageDirs → StageDirs
esp_only d = record { rootfs_dir = []; esp = d.esp; firmware_dir = [] }

firmware_only : StageDirs → StageDirs
firmware_only d = record { rootfs_dir = []; esp = []; firmware_dir = d.firmware_dir }

module _ (ext : Outside) (health : Health) (audit_json : EventJson) (messages : Messages)
    (split_at : ℕ) (f : Flags) where
  open ext use {json, sha256, timestamp, cmdline, crypto, now}

  counter_store : CounterStore
  counter_store = pick_counter f.counter f.counter_commands

  confirm_this_boot : StageDirs → Io Report
  confirm_this_boot dirs =
      boot_success json sha256 health timestamp cmdline (some counter_store) f.wal dirs

  -- audit.Append with an event of now; its error is dropped. The detail is a message of the daemon.
  note : Bytes → Bytes → Io (Unit {0})
  note action detail = ignore (
      append_event audit_json f.audit split_at
        (record { time = timestamp; action = action; detail = detail }))

  -- The handler of the job.
  check_updates : Bytes → Io (Unit {0})
  check_updates key =
      attempt (stage ext f.wal f.dirs f.manifest f.revocation key)
        (λ r. note (codes "stage") (messages.of_stage r)) (λ e. pure tt)

  scheduled : ℕ → Bytes → Io ℕ
  scheduled zero key = pure 0
  scheduled (suc n) key = check_updates key >> scheduled n key

  serve_schedule : ℕ → Io ℕ
  serve_schedule n =
      if is_empty f.manifest
      then pure 0
      else attempt (read_file f.pubkey) (scheduled n) (λ _. pure 1)

  -- runDaemon; an inert daemon waits to be stopped.
  unfoldable pub run_daemon : ℕ → Io ℕ
  unfolding serve_schedule scheduled check_updates note confirm_this_boot counter_store
  run_daemon fires = do
    installed ← is_installed f.installed_marker
    if not installed
        then pure 0
        else attempt (confirm_this_boot f.dirs)
            (λ r. note (codes "boot-success") (messages.of_boot r)) (λ e. pure tt)
          >> serve_schedule fires

  -- A command that needs a manifest and the key.
  with_key : (Bytes → Io ℕ) → Io ℕ
  with_key k = if is_empty f.manifest then pure 2 else attempt (read_file f.pubkey) k (λ _. pure 1)

  when_installed : Io ℕ → Io ℕ
  when_installed m = do
    installed ← is_installed f.installed_marker
    if not installed then pure 0 else m

  repair_sig_path : FilePath → Option FilePath → FilePath
  repair_sig_path image none = suffixed image (codes ".sig")
  repair_sig_path image (some p) = p

  repair_from : FilePath → FilePath → Io ℕ
  repair_from image sig =
      attempt (read_file f.pubkey)
        (λ key.
          attempt (read_file image)
            (λ img.
              attempt (read_file sig)
                (λ s. report (repair_loader crypto (esp_only f.dirs) img s key now)) (λ _. pure 1))
            (λ _. pure 1))
        (λ _. pure 1)

  confirm_bundles : Bytes → Bool → Io ℕ
  confirm_bundles bundle probe_ok =
      if is_empty bundle
      then report (firmware_boot_confirm_all json timestamp f.wal (firmware_only f.dirs) probe_ok)
      else report
          (firmware_boot_confirm json timestamp f.wal (firmware_only f.dirs) bundle probe_ok)

  -- run of main.go, runLoader and runRecovery: the exit status.
  unfoldable pub run_command : Command → Io ℕ
  unfolding with_key when_installed slot_dirs esp_only firmware_only repair_from confirm_bundles
      repair_sig_path confirm_this_boot counter_store
  run_command (init_log device version) = report (init_verb json f.wal timestamp device version)
  run_command (run_daemon_for fires) = run_daemon fires
  run_command stage_release =
      with_key (λ key. report (stage ext f.wal f.dirs f.manifest f.revocation key))
  run_command confirm_boot = when_installed (report (confirm_this_boot (slot_dirs f.dirs)))
  run_command (deploy_release v) = report (deploy_verb json f.wal v)
  run_command roll_back = report (rollback_verb json f.wal (slot_dirs f.dirs))
  run_command (confirm_firmware bundle probe_ok) = when_installed (confirm_bundles bundle probe_ok)
  run_command loader_status = read_loader_status (esp_only f.dirs) >> pure 0
  run_command (loader_update retry) =
      with_key (λ key. report (stage_loader ext f.wal (esp_only f.dirs) f.manifest [] key retry))
  run_command (loader_repair image sig) = repair_from image (repair_sig_path image sig)
  run_command recovery_update =
      with_key (λ key. report (stage_recovery ext f.wal (esp_only f.dirs) f.manifest [] key))
  run_command show_version = pure 0
  run_command usage_error = pure 2
