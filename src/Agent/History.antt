-- ===== src/Agent/History.antt =====
-- cmd/updated/history.go: the history of the releases that ran.
pub mod Bounded
use atom_loops.Prelude.{
  ℕ, ◌-◌, Bool, true, false, ◌&&◌, ◌||◌, Option, none, some, List, [], ◌∷◌, ◌++◌, length, drop, ltb,
  if◌then◌else◌,
}
use atom_loops.Prelude.Text.{Bytes, codes, is_empty, split, ◌=b◌}
use atom_loops.Prelude.Int.{ℤ}
use atom_loops.System.Files.{FilePath, suffixed}
use atom_loops.System.Io.{
  Io, message, pure, throw, attempt, settle, read_file, write_new, rename, ◌>>=◌, ◌>>◌,
}
use atom_loops.Agent.Feed.{Client, release_value}

abbrev pub history_limit : ℕ
history_limit = 100

pub record HistoryEntry : Type 0 where
  pub version : Bytes
  pub build : Bytes
  pub time : ℤ
  pub success : Bool

-- encoding/json on a history.
pub record HistoryJson : Type 0 where
  pub encode : List HistoryEntry → Option Bytes
  pub decode : Bytes → Option (List HistoryEntry)

or_none : Option (List HistoryEntry) → List HistoryEntry
or_none none = []
or_none (some es) = es

-- The loop's end: whether the last entry is of that release and build.
unfoldable pub last_is : Bytes → Bytes → List HistoryEntry → Bool
last_is version build [] = false
last_is version build (e ∷ []) = e.version =b version && e.build =b build
last_is version build (e ∷ f ∷ es) = last_is version build (f ∷ es)

-- The history with one more entry, cut to the last hundred.
unfoldable pub recorded_entries : HistoryEntry → List HistoryEntry → List HistoryEntry
recorded_entries e es =
    let all = es ++ e ∷ [] in
    if ltb history_limit (length all) then drop (length all - history_limit) all else all

module _ (json : HistoryJson) where
  -- readHistory
  unfoldable pub read_history : FilePath → Io (List HistoryEntry)
  unfolding or_none
  read_history p = attempt (read_file p) (λ b. pure (or_none (json.decode b))) (λ _. pure [])

  encoded_history : Option Bytes → Io Bytes
  encoded_history none = throw (message "json")
  encoded_history (some b) = pure b

  -- writeHistory
  unfoldable pub write_history : FilePath → List HistoryEntry → Io (Unit {0})
  unfolding encoded_history
  write_history p es = do
    settle
    b ← encoded_history (json.encode es)
    write_new (suffixed p (codes ".tmp")) b
    rename (suffixed p (codes ".tmp")) p

  record_release : FilePath → Bytes → Bytes → ℤ → Io (Unit {0})
  record_release p version build now = do
    es ← read_history p
    if last_is version build es
        then pure tt
        else write_history p (
            recorded_entries
              (record { version = version; build = build; time = now; success = true }) es)

  -- recordRunning; `none` is the empty path.
  unfoldable pub record_running : Option FilePath → Bytes → Bytes → ℤ → Io (Unit {0})
  unfolding record_release
  record_running none version build now = pure tt
  record_running (some p) version build now =
      if is_empty version then pure tt else record_release p version build now

current_of : Option (Bytes × Bytes) → Bytes
current_of none = []
current_of (some (current, pending)) = current

-- runningVersion
unfoldable pub running_version : Client → FilePath → Io Bytes
unfolding current_of
running_version client wal =
    attempt (read_file wal) (λ b. pure (current_of (client.versions_of_json b))) (λ _. pure [])

or_empty : Option Bytes → Bytes
or_empty none = []
or_empty (some v) = v

-- osRelease
unfoldable pub os_release : FilePath → Bytes → Io Bytes
unfolding or_empty
os_release p key =
    attempt (read_file p) (λ b. pure (or_empty (release_value (key ++ codes "=") (split 10 b))))
      (λ _. pure [])
