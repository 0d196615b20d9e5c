-- ===== src/Agent/Store.antt =====
-- cmd/updated/main.go: statusStore. A method holds the mutex from its first to its last line, so it is
-- one step; what it reads from the status file is `seen`, which another process may have written.
use atom_loops.Prelude.{
  suc, ◌*◌, ◌/◌, Bool, true, false, not, ◌||◌, Option, none, some, [], zero, if◌then◌else◌,
}
use atom_loops.Prelude.Text.{Bytes, codes, is_empty, ◌=b◌}
use atom_loops.Prelude.Int.{ℤ, pos, negsuc, leb_ℤ, wrap_int, to_uint}
use atom_loops.System.Files.{FilePath}
use atom_loops.System.Io.{Io, Error, pure, attempt, ignore, ◌>>=◌, ◌>>◌}
use atom_loops.Agent.Status.{
  Status, StatusJson, zero_status, is_state, client_status, write_status, read_status,
}

pub record StatusStore : Type 0 where
  pub live : Status
  pub advertised : Status

or_idle : Option Status → Status
or_idle none = record zero_status { state = codes "idle" }
or_idle (some s) = s

-- currentLocked
unfoldable pub current_locked : Option Status → StatusStore → Status
unfolding or_idle
current_locked seen st = if is_state (codes "downloading") st.live then st.live else or_idle seen

-- advertiseLocked
unfoldable pub advertise_locked : Status → StatusStore → StatusStore
advertise_locked s st = record st {
  advertised = if is_state (codes "available") s then s else zero_status;
}

-- getForClient
unfoldable pub get_for_client : Option Status → StatusStore → Status × StatusStore
get_for_client seen st = let s = current_locked seen st in (s, advertise_locked s st)

unfoldable pub started : Status → Status
started s = record s { state = codes "downloading"; percent = pos 0; error = [] }

-- claimDownload
unfoldable pub claim_download :
    (Bytes → Bytes) → Option Status → Bytes → StatusStore → (Status × Bool) × StatusStore
claim_download sha256 seen token st =
    if not (is_state (codes "available") st.advertised)
      || is_empty token
      || not ((client_status sha256 st.advertised).consent_token =b token)
    then ((current_locked seen st, false), st)
    else ((st.advertised, true), record { live = started st.advertised; advertised = zero_status })

-- The quotient of Go, towards 0, by a number above 0.
quotient : ℤ → ℤ → ℤ
quotient (pos a) (pos t) = pos (a / t)
quotient (pos a) (negsuc t) = pos 0
quotient (negsuc a) (pos t) = elim (suc a / t) [ zero ↦ pos 0 | suc q ↦ negsuc q ]
quotient (negsuc a) (negsuc t) = pos 0

-- setProgress, where the product wraps as an int64.
unfoldable pub set_progress : ℤ → ℤ → StatusStore → StatusStore
unfolding quotient
set_progress n total st =
    if leb_ℤ total (pos 0) || not (is_state (codes "downloading") st.live) then st else record st {
      live = record st.live { percent = quotient (wrap_int (to_uint n * 100)) total };
    }

is_ready : Option Status → Bool
is_ready none = false
is_ready (some s) = is_state (codes "ready") s

-- What publishPoll goes on to publish: the status, and whether it is written.
unfoldable pub to_publish : Status → Option Status → StatusStore → Status × Bool
unfolding is_ready
to_publish s seen st =
    if is_state (codes "downloading") st.live
    then (st.live, false)
    else (if is_ready seen then (current_locked seen st, false) else (s, true))

module _ (json : StatusJson) (pid : Bytes) (path : Option FilePath) where
  -- The file is read only while nothing is downloaded.
  seen_by : StatusStore → Io (Option Status)
  seen_by st = if is_state (codes "downloading") st.live then pure none else read_status json path

  -- statusStore.get
  unfoldable pub get_status : StatusStore → Io Status
  unfolding seen_by
  get_status st = do seen ← seen_by st; pure (current_locked seen st)

  -- statusStore.complete
  unfoldable pub complete_download : Status → StatusStore → Io StatusStore
  complete_download s st = do
    ignore (write_status json pid path s)
    pure (record st { live = zero_status })

  poll_written : Status × Bool → Io (Status × Option Error)
  poll_written (s, false) = pure (s, none)
  poll_written (s, true) =
      attempt (write_status json pid path s) (λ _. pure (s, none)) (λ e. pure (s, some e))

  -- publishPoll leaves the store as it is.
  unfoldable pub publish_poll : Status → StatusStore → Io (Status × Option Error)
  unfolding poll_written seen_by
  publish_poll s st = do seen ← seen_by st; poll_written (to_publish s seen st)
