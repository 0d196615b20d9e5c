-- ===== src/Agent/Requests.antt =====
-- cmd/updated/main.go: staging under the lock that all staging processes share, and the requests of
-- newUpdateServer. The lock of the kernel is an argument: what flock answers. http.ServeMux, its writer
-- and url.ParseQuery are not modelled: a request comes as its method and its query.
pub mod Installed
pub mod Reboot
use atom_loops.Prelude.{
  Bool, true, false, not, Option, none, some, List, [], ◌∷◌, ◌++◌, if◌then◌else◌,
}
use atom_loops.Prelude.Text.{Bytes, codes, ◌=b◌}
use atom_loops.Prelude.Int.{pos}
use atom_loops.Prelude.Assoc.{Assoc}
use atom_loops.System.Files.{FilePath}
use atom_loops.System.Io.{
  Io, Error, errno, message, pure, throw, attempt, after, ignore, label, settle, ◌>>=◌, ◌>>◌,
}
use atom_loops.Otad.Outside.{Outside}
use atom_loops.Otad.Slots.{StageDirs}
use atom_loops.Otad.Stage.{StageReport, stage_expected_manifest}
use atom_loops.Agent.Status.{Status, StatusJson, is_state}
use atom_loops.Agent.Store.{
  StatusStore, get_status, advertise_locked, complete_download, publish_poll,
}
use atom_loops.Agent.Feed.{Client, check, trim_slashes}
use atom_loops.Agent.Server.{with_error}

pub data Flock : Type 0 where
  granted held broken : Flock

-- Whether the lock was taken; errStageBusy is `false`.
flocked : Flock → Io Bool
flocked granted = pure true
flocked held = ignore settle >> pure false
flocked broken = ignore settle >> throw (message "lock update staging")

-- acquireStageLock; `none` is the empty path.
unfoldable pub acquire_stage_lock : Option FilePath → Flock → Io Bool
unfolding flocked
acquire_stage_lock none l = throw (message "update staging lock path is empty")
acquire_stage_lock (some p) l = do
  label "create update lock directory" settle
  label "open update staging lock" settle
  flocked l

-- Whether the lock is held afterwards: closing the file gives it up.
unfoldable pub release_stage_lock : Io Bool
release_stage_lock = ignore settle >> (ignore settle >> pure false)

-- The parts of cfg that do not change.
pub record AgentConfig : Type 0 where
  pub feed : Bytes
  pub current : Bytes
  pub state : Option FilePath
  pub wal : FilePath
  pub dirs : StageDirs
  pub stage_lock : Option FilePath
  pub root_pub : Bytes
  pub pid : Bytes

pub manifest_url : AgentConfig → Bytes
manifest_url c = trim_slashes c.feed ++ codes "/manifest.json"

pub data RebootClaim : Type 0 where
  claimed busy nothing_staged : RebootClaim

module _ (ext : Outside) (client : Client) (json : StatusJson) (c : AgentConfig) where
  -- `none` is errStageBusy.
  when_locked : Bool → Bytes → Io (Option StageReport)
  unfolding manifest_url
  when_locked false expected = pure none
  when_locked true expected =
      after
        (stage_expected_manifest ext c.wal c.dirs (manifest_url c) [] c.root_pub expected >>= λ r.
          pure (some r))
        (ignore release_stage_lock)

  -- stage of cmd/updated.
  unfoldable pub stage_checked : Flock → Bytes → Io (Option StageReport)
  unfolding when_locked
  stage_checked l expected = acquire_stage_lock c.stage_lock l >>= λ b. when_locked b expected

  staged_status : Status → Option StageReport → Status
  staged_status s none = record s { state = codes "downloading"; percent = pos 0; error = [] }
  staged_status s (some r) = record s { state = codes "ready"; percent = pos 100; error = [] }

  failed_status : Status → Error → Status
  failed_status s e = record s { state = codes "error"; percent = pos 0; error = client.text_of e }

  -- The download of newUpdateServer, up to the status that it completes with.
  unfoldable pub downloaded : Flock → Status → Io Status
  unfolding staged_status failed_status
  downloaded l s =
      attempt (stage_checked l s.manifest_sha256) (λ r. pure (staged_status s r))
        (λ e. pure (failed_status s e))

  unfoldable pub download : Flock → Status → StatusStore → Io StatusStore
  download l s st = do d ← downloaded l s; complete_download json c.pid c.state d st

  -- pollOnce
  pub poll_once : Io Status
  poll_once = check ext client c.root_pub c.feed c.current (some c.wal)

  -- /check, without the other requests between its two lock sections.
  error_text : Option Error → Option Bytes
  error_text none = none
  error_text (some e) = some (client.text_of e)

  unfoldable pub check_request : StatusStore → Io (Status × StatusStore)
  unfolding poll_once error_text
  check_request st = do
    polled ← poll_once
    r ← publish_poll json c.pid c.state polled st
    let s = with_error (error_text r.1) r.0
    pure (s, advertise_locked s st)

  -- With the claim, whether the lock is held.
  ready_claim : Bool → Status → Io (RebootClaim × Bool)
  ready_claim locked s =
      if not (is_state (codes "ready") s)
      then (release_stage_lock >>= λ h. pure (nothing_staged, h))
      else pure (claimed, locked)

  locked_claim : Bool → StatusStore → Io (RebootClaim × Bool)
  locked_claim false st = pure (busy, false)
  locked_claim true st = get_status json c.pid c.state st >>= ready_claim true

  -- claimReboot
  unfoldable pub claim_reboot : Flock → StatusStore → Io (RebootClaim × Bool)
  unfolding locked_claim ready_claim
  claim_reboot l st = acquire_stage_lock c.stage_lock l >>= λ b. locked_claim b st

-- The token of a /download: the query has it alone and once; `none` is a query that does not parse.
one_value : List Bytes → Bytes
one_value [] = []
one_value (v ∷ []) = v
one_value (v ∷ w ∷ vs) = []

unfoldable pub query_token : Option (Assoc (List Bytes)) → Bytes
unfolding one_value
query_token none = []
query_token (some []) = []
query_token (some ((k, vs) ∷ [])) = if k =b codes "token" then one_value vs else []
query_token (some (p ∷ q ∷ r)) = []
