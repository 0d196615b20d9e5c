-- ===== src/Deployment/Wal.antt =====
-- internal/deployment/wal.go: the log on disk, with its backup. The JSON of a log is a parameter, as
-- encoding/json is: `encode` is MarshalIndent, `decode` is Unmarshal into a Deployment.
pub mod Crash
use atom_loops.Prelude.{Bool, Option, none, some, [], ◌∷◌, ◌++◌}
use atom_loops.Prelude.Text.{Bytes, codes}
use atom_loops.System.Files.{FilePath, suffixed}
use atom_loops.System.Io.{
  Io, pure, throw, message, errno, attempt, label, settle, read_file, create_temp, write, rename,
  remove, after, ◌>>=◌, ◌>>◌,
}
use atom_loops.Deployment.State.{Deployment}

pub record Json : Type 0 where
  pub encode : Deployment → Option Bytes
  pub decode : Bytes → Option Deployment

-- fsyncDir: the open and the sync. An EINVAL counts as a sync that works.
unfoldable pub fsync_dir : Io (Unit {0})
unfolding settle
fsync_dir = do settle; settle

unfoldable pub write_file_sync : FilePath → Bytes → Io (Unit {0})
write_file_sync p s = do
  tmp ← create_temp
  after (do write tmp s; settle; settle; rename tmp p; fsync_dir) (remove tmp)

-- path + BakSuffix
abbrev pub backup : FilePath → FilePath
backup p = suffixed p (codes ".bak")

module _ (json : Json) where
  open json use {encode, decode}

  decoded : Option Deployment → Io Deployment
  decoded none = throw (message "json")
  decoded (some d) = pure d

  read_one : FilePath → Io Deployment
  unfolding decoded
  read_one p = do b ← read_file p; decoded (decode b)

  unfoldable pub load : FilePath → Io Deployment
  unfolding read_one
  load p =
      attempt (read_one p) pure
        λ _. attempt (read_one (backup p)) pure λ _. throw (message "deployment: no valid WAL")

  encoded : Option Bytes → Io Bytes
  encoded none = throw (message "json")
  encoded (some b) = pure b

  unfoldable pub save : FilePath → Deployment → Io (Unit {0})
  unfolding encoded
  save p d = do
    b ← encoded (encode d)
    label "deployment: write backup" (write_file_sync (backup p) (b ++ 10 ∷ []))
    label "deployment: write primary" (write_file_sync p (b ++ 10 ∷ []))
