-- ===== src/Agent/Requests/Installed.antt =====
-- From the feed to the disk: what a client consents to is what is staged.
use atom_loops.Prelude.{◌≡◌, false, Option, none, some, []}
use atom_loops.Prelude.Text.{Bytes, is_empty}
use atom_loops.System.Files.{Files}
use atom_loops.System.Triple.{Keeps}
use atom_loops.Otad.Outside.{Outside}
use atom_loops.Otad.Manifest.{Manifest}
use atom_loops.Otad.Stage.{StageReport}
use atom_loops.Otad.Stage.Accepted.{IsAccepted, IsStaged}
use atom_loops.Agent.Status.{Status}
use atom_loops.Agent.Requests.{AgentConfig}

-- The release staged, if any, is accepted for the digest.
abbrev Accepts : Outside → AgentConfig → Bytes → Option StageReport → Files → Type 0
Accepts ext c digest none f = Unit
Accepts ext c digest (some r) f =
    (is_empty digest ≡ false) × IsAccepted ext c.wal c.dirs c.root_pub [] digest r f

-- The release staged, if any, is the one that the status names: its manifest is the one that was offered, and
-- the log with that release on trial was saved.
abbrev pub IsLatest :
    (ext : Outside) (c : AgentConfig) (st : Status) → Manifest → Option StageReport → Files → Type 0
IsLatest ext c st m none f = Unit
IsLatest ext c st m (some r) f =
    (r.version ≡ st.latest) × (m.version ≡ st.latest) × IsStaged ext c.wal c.dirs m r f
