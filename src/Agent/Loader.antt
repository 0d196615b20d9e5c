-- ===== src/Agent/Loader.antt =====
-- cmd/updated/loader.go: the loader and the recovery image, and the check at the start of the agent
-- (main.go: startupCheck). The locks are arguments: what flock answers. The messages of log are not
-- modelled, nor is the parse of a request.
pub mod Auto
use atom_loops.Prelude.{
  ℕ, zero, suc, Bool, true, false, not, ◌||◌, Option, none, some, [], if◌then◌else◌,
}
use atom_loops.Prelude.Text.{Bytes, codes}
use atom_loops.Prelude.Int.{ℤ, pos, leb_ℤ, ◌=z◌}
use atom_loops.System.Files.{FilePath, join}
use atom_loops.System.Io.{
  Io, Error, errno, not_exist, message, wrapped, transient, pure, throw, attempt, after, ignore,
  settle, found, remove, write_new, ◌>>=◌, ◌>>◌,
}
use atom_loops.Otad.Slots.{StageDirs}
use atom_loops.Otad.Outside.{Outside}
use atom_loops.Otad.Loader.{LoaderStatus, read_loader_status}
use atom_loops.Otad.Loader.Image.{LoaderReport, stage_loader}
use atom_loops.Otad.Loader.Slot.{Sections, BootInfo, read_boot_info}
use atom_loops.Otad.Recovery.{stage_recovery}
use atom_loops.Agent.Status.{Status, StatusJson, is_state}
use atom_loops.Agent.Store.{StatusStore, get_status, publish_poll}
use atom_loops.Agent.Feed.{Client}
use atom_loops.Agent.Requests.{
  Flock, AgentConfig, acquire_stage_lock, release_stage_lock, manifest_url, poll_once,
}

abbrev pub loader_auto_flag : FilePath
loader_auto_flag = join (codes "/var/lib/sinty") (codes "loader-auto")

unfoldable pub loader_auto : Io Bool
loader_auto = found loader_auto_flag

absent_is_off : Error → Io (Unit {0})
absent_is_off not_exist = pure tt
absent_is_off errno = throw errno
absent_is_off (message s) = throw (message s)
absent_is_off (wrapped s e) = throw (wrapped s e)
absent_is_off (transient e) = throw (transient e)

unfoldable pub set_loader_auto : Bool → Io (Unit {0})
unfolding absent_is_off
set_loader_auto false = attempt (remove loader_auto_flag) pure absent_is_off
set_loader_auto true = settle >> write_new loader_auto_flag (codes "1\n")

-- StageDirs with the root and the ESP, and with the ESP alone.
image_dirs : StageDirs → StageDirs
image_dirs d = record d { firmware_dir = [] }

abbrev pub esp_dirs : StageDirs → StageDirs
esp_dirs d = record { rootfs_dir = []; esp = d.esp; firmware_dir = [] }

-- Whether a loader that the feed offers is to be staged.
unfoldable pub is_wanted : ℤ → LoaderStatus → Bool
is_wanted available st =
    not (
      not (st.candidate =z pos 0) || leb_ℤ available st.installed || available =z st.failed_version)

-- loaderStatus
pub record LoaderView : Type 0 where
  pub loader : LoaderStatus
  pub boot : BootInfo
  pub available : ℤ
  pub auto : Bool
  pub message : Option LoaderReport
  pub error : Bytes

module _ (ext : Outside) (c : AgentConfig) where
  -- `none` is errStageBusy.
  loader_when_locked : Bool → Bool → Io (Option LoaderReport)
  unfolding image_dirs
  loader_when_locked retry false = pure none
  loader_when_locked retry true =
      after
        (stage_loader ext c.wal (image_dirs c.dirs) (manifest_url c) [] c.root_pub retry >>= λ r.
          pure (some r))
        (ignore release_stage_lock)

  -- stageLoader
  unfoldable pub stage_loader_locked : Flock → Bool → Io (Option LoaderReport)
  unfolding loader_when_locked
  stage_loader_locked l retry = acquire_stage_lock c.stage_lock l >>= loader_when_locked retry

  recovery_when_locked : Bool → Io (Unit {0})
  unfolding image_dirs
  recovery_when_locked false = pure tt
  recovery_when_locked true =
      after
        (ignore (
          stage_recovery ext c.wal (image_dirs c.dirs) (manifest_url c) [] c.root_pub >>= λ r.
          pure tt))
        (ignore release_stage_lock)

  -- maybeStageRecovery
  unfoldable pub maybe_stage_recovery : Flock → Status → Io (Unit {0})
  unfolding recovery_when_locked
  maybe_stage_recovery l checked =
      if not (is_state (codes "idle") checked)
      then pure tt
      else attempt (acquire_stage_lock c.stage_lock l) recovery_when_locked (λ _. pure tt)

  -- maybeAutoStageLoader behind its first test.
  auto_staged : Flock → ℤ → LoaderStatus → Io (Unit {0})
  auto_staged l available st =
      if not (is_wanted available st)
      then pure tt
      else ignore (stage_loader_locked l false >>= λ r. pure tt)

  unfoldable pub maybe_auto_stage_loader : Flock → Status → Io (Unit {0})
  unfolding auto_staged
  maybe_auto_stage_loader l checked = do
    auto ← loader_auto
    if not auto || checked.loader_available =z pos 0 || not (is_state (codes "idle") checked)
        then pure tt
        else read_loader_status (esp_dirs c.dirs) >>= auto_staged l checked.loader_available

is_error : Option Error → Bool
is_error none = false
is_error (some e) = true

module _ (ext : Outside) (client : Client) (json : StatusJson) (c : AgentConfig) where
  -- startupCheck with so many attempts left, without the sleep between them; `stores` is what the store
  -- holds when an attempt publishes.
  startup_within : (ℕ → StatusStore) → Flock → Flock → ℕ → Io (Unit {0})
  unfolding is_error
  startup_within stores l k zero = pure tt
  startup_within stores l k (suc n) =
      let rest = startup_within stores l k n in
      (poll_once ext client json c >>= λ checked.
      publish_poll json c.pid c.state checked (stores n) >>= λ r.
      if is_error r.1 || not (is_state (codes "error") checked) || not checked.retryable
      then maybe_auto_stage_loader ext c l checked >> maybe_stage_recovery ext c k checked
      else rest)

  unfoldable pub startup_check : (ℕ → StatusStore) → Flock → Flock → Io (Unit {0})
  unfolding startup_within
  startup_check stores l k = startup_within stores l k 3

  -- The answer to /loader.
  unfoldable pub loader_view : Sections → StatusStore → Io LoaderView
  loader_view pe st = do
    loader ← read_loader_status (esp_dirs c.dirs)
    boot ← read_boot_info pe (esp_dirs c.dirs)
    s ← get_status json c.pid c.state st
    auto ← loader_auto
    pure (record {
      loader = loader;
      boot = boot;
      available = s.loader_available;
      auto = auto;
      message = none;
      error = [];
    })

  answered_view : LoaderView → Option LoaderReport → ℕ × LoaderView
  answered_view v none = (409, record v { error = codes "another update is already being staged" })
  answered_view v (some r) = (200, record v { message = some r })

  -- /loader/update: the status code and the answer.
  unfoldable pub update_request : Sections → StatusStore → Flock → Bool → Io (ℕ × LoaderView)
  unfolding answered_view
  update_request pe st l retry =
      attempt (stage_loader_locked ext c l retry)
        (λ o. loader_view pe st >>= λ v. pure (answered_view v o))
        (λ e. loader_view pe st >>= λ v. pure (409, record v { error = client.text_of e }))

  -- /loader/auto
  unfoldable pub auto_request : Sections → StatusStore → Bool → Io (ℕ × LoaderView)
  auto_request pe st on =
      attempt (set_loader_auto on) (λ _. loader_view pe st >>= λ v. pure (200, v))
        (λ e. loader_view pe st >>= λ v. pure (500, record v { error = client.text_of e }))
