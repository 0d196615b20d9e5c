-- ===== src/Tests/Programs.antt =====
-- The daemon's commands, the restart of the agent, and the history of updates.
use atom_loops.Prelude.{◌≡◌, refl, ap, ◌∙◌, ◌⊎◌, none, some, [], ◌∷◌, ◌++◌, if◌then◌else◌}
use atom_loops.Prelude.Text.{Bytes, codes, ◌=b◌}
use atom_loops.Prelude.TextLaws.{ne-longer}
use atom_loops.System.Files.{FilePath, join, ◌=p◌}
use atom_loops.System.Io.{World}
use atom_loops.System.Triple.{Triple}
use atom_loops.System.Returns.{Returns}
use atom_loops.Audit.{Event, EventJson, append_event}
use atom_loops.Audit.Torn.{IsLogged, Log, logged, events}
use atom_loops.Audit.Appended.{text_at, history_at, append_event-history}
use atom_loops.Atomd.{run_command, Messages, Flags, run_daemon_for}
use atom_loops.Atomd.Inert.{LeavesAlone, daemon, inert}
use atom_loops.Prelude.Int.{pos}
use atom_loops.Agent.Status.{Status, zero_status}
use atom_loops.Agent.Loader.{loader_auto_flag, maybe_auto_stage_loader}
use atom_loops.Agent.Loader.Auto.{IsDue, maybe_auto_stage_loader-IsDue}
use atom_loops.Agent.Requests.{granted}
use atom_loops.Tests.Daemon.{healthy}
use atom_loops.Tests.Agent.{world_outside, settings}

abbrev staged : Event
staged = record { time = codes "now"; action = codes "stage"; detail = codes "rel2" }

abbrev line : Bytes
line = codes "{x}"

-- One text is an event.
abbrev one_event : EventJson
one_event = record {
  encode = λ e. some line;
  decode = λ b. if b =b line then some staged else none;
}

the_event : IsLogged one_event staged line
the_event = record {
  encoded = refl;
  decoded = refl;
  line = refl;
  begins = refl;
  last = (codes "{x", 125, refl, refl);
  whole = λ p c t h. rw (ap (λ b. p =b b) h ∙ ne-longer p c t) refl;
}

abbrev older : Log
older = (staged, line) ∷ []

abbrev history : FilePath
history = join (codes "/var/log/atom") (codes "history.jsonl")

append_event-history_example :
    Triple
      (λ f. text_at f history ≡ logged older)
      (append_event one_event history 2 staged)
      (λ f.
        (history_at one_event f history ≡ events older)
        ⊎ (history_at one_event f history ≡ events older ++ staged ∷ []))
      (λ _ f. history_at one_event f history ≡ events older ++ staged ∷ [])
append_event-history_example =
    append_event-history one_event history 2 older staged line (the_event, tt) the_event

abbrev flags : Flags
flags = record {
  wal = settings.wal;
  dirs = settings.dirs;
  pubkey = join (codes "/etc/atom") (codes "root.pub");
  manifest = codes "https://h/manifest.json";
  revocation = [];
  counter = join (codes "/var/lib/atom") (codes "anti-rollback");
  counter_commands = none;
  audit = history;
  installed_marker = join (codes "/run/atom") (codes "installed");
}

abbrev messages : Messages
messages = record { of_boot = λ r. []; of_stage = λ r. [] }

abbrev live_system : World
live_system = record { files = λ p. none; next = 0; faults = [] }

inert_example :
    LeavesAlone
      (run_command world_outside healthy one_event messages 2 flags (run_daemon_for 3))
      live_system
inert_example =
    inert world_outside healthy one_event messages 2 flags (run_daemon_for 3) live_system (daemon 3)
      refl

abbrev quiet_check : Status
quiet_check = record zero_status { state = codes "idle"; loader_available = pos 3 }

abbrev with_flag : World
with_flag = record live_system {
  files =
      λ p. if p =p loader_auto_flag then some (record { inode = 1; content = codes "1" }) else none;
}

maybe_auto_stage_loader-IsDue_example :
    ((maybe_auto_stage_loader world_outside settings granted quiet_check with_flag).1.files
      ≡ with_flag.files)
    ⊎ IsDue settings.dirs quiet_check with_flag
maybe_auto_stage_loader-IsDue_example =
    maybe_auto_stage_loader-IsDue world_outside settings granted quiet_check with_flag
