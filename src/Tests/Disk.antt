-- ===== src/Tests/Disk.antt =====
-- The files on disk: a save of the log that is cut off, a counter, and the boot-state file.
use atom_loops.Prelude.{◌≡◌, refl, true, none, some, [], ◌∷◌, arith, if◌then◌else◌}
use atom_loops.Prelude.Text.{Bytes, codes, ◌=b◌}
use atom_loops.Prelude.Int.{pos}
use atom_loops.System.Files.{join, update}
use atom_loops.System.Io.{World, works, power_loss, attempt, ◌>>=◌, read_file, call}
use atom_loops.System.Triple.{Triple}
use atom_loops.Deployment.State.{Deployment}
use atom_loops.Deployment.Transition.{new, deploy}
use atom_loops.Deployment.Wal.{Json, save, load}
use atom_loops.Deployment.Wal.Crash.{load-save, Reloads}
use atom_loops.Otad.Counter.{advance_counter}
use atom_loops.Otad.Counter.Advance.{advance_counter-rises, counter_at, NotFallen, Raised}
use atom_loops.Otad.BootState.{BootState, marshal, read_state}
use atom_loops.Otad.BootState.RoundTrip.{read_state-marshal}

abbrev old_log : Deployment
old_log = new (codes "now") (codes "device") (codes "rel1")

abbrev new_log : Deployment
new_log = deploy (codes "rel2") old_log

-- A decoder that knows two texts.
abbrev two_texts : Json
two_texts = record {
  encode = λ d. some (codes "new");
  decode = λ b. if b =b codes "old" then some old_log else some new_log;
}

abbrev dir : Bytes
dir = codes "/sysdata/boot"

-- The power is lost in the write of the backup.
abbrev cut_off : World
cut_off = record {
  files =
      update (λ p. none) (join dir (codes "deployment.json"))
        (some (record { inode = 0; content = codes "old" }));
  next = 1;
  faults = works ∷ power_loss ∷ [];
}

load-save_example :
    Reloads two_texts
      (join dir (codes "deployment.json"))
      old_log
      new_log
      (save two_texts (join dir (codes "deployment.json")) new_log cut_off)
unfolding load attempt ◌>>=◌ read_file call
load-save_example =
    load-save two_texts dir (codes "deployment.json") new_log old_log (codes "new") cut_off refl
      refl refl

advance_counter-rises_example :
    Triple
      (λ f. counter_at f (join dir (codes "counter")) ≡ some 3)
      (advance_counter (join dir (codes "counter")) 5)
      (NotFallen (join dir (codes "counter")) 3 5)
      (λ _ f. Raised (join dir (codes "counter")) 3 5 f)
advance_counter-rises_example = advance_counter-rises dir (codes "counter") 3 5 (omega arith)

abbrev trial_state : BootState
trial_state = record { target = codes "next"; trial = true; attempts = pos 3 }

read_state-marshal_example : read_state (marshal trial_state) ≡ trial_state
read_state-marshal_example = read_state-marshal trial_state refl (omega arith)
