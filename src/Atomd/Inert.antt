-- ===== src/Atomd/Inert.antt =====
-- A live system touches nothing of the machine.
use atom_loops.Prelude.{ℕ, ◌≡◌, refl, ◌⊎◌, inl, inr, Bool, not, none, List, [], ◌∷◌, if◌then◌else◌}
use atom_loops.Prelude.Text.{Bytes}
use atom_loops.System.Files.{FilePath, Files}
use atom_loops.System.Io.{
  World, done, lost, Io, Fault, works, fails, power_loss, pure, found, stat, call, attempt, ◌>>=◌,
}
use atom_loops.Otad.Health.{Health}
use atom_loops.Otad.Outside.{Outside}
use atom_loops.Audit.{EventJson}
use atom_loops.Atomd.{
  Messages, Flags, Command, run_daemon_for, confirm_boot, confirm_firmware, run_command,
  is_installed, run_daemon,
}

-- The sequence ends with the exit status 0, unless the power is lost, and leaves the files alone.
abbrev pub LeavesAlone : Io ℕ → World → Type 0
LeavesAlone m w = (((m w).0 ≡ done 0) ⊎ ((m w).0 ≡ lost)) × ((m w).1.files ≡ w.files)

-- What stands behind the test of the marker does not run.
gate_lem :
    (p : FilePath) (m : Io ℕ) (files : Files) (next : ℕ) (faults : List Fault)
    → files p ≡ none
    → LeavesAlone
        (is_installed p >>= λ installed. if not installed then pure 0 else m)
        (record { files = files; next = next; faults = faults })
unfolding is_installed found stat attempt call ◌>>=◌
gate_lem p m files next [] h = rw h (inl refl, refl)
gate_lem p m files next (works ∷ s) h = rw h (inl refl, refl)
gate_lem p m files next (fails ∷ s) h = (inl refl, refl)
gate_lem p m files next (power_loss ∷ s) h = (inr refl, refl)

-- The commands that confirm a boot or a firmware bundle, and the daemon, which checks for updates too.
pub data Confirms : Command → Type 0 where
  daemon : (n : ℕ) → Confirms (run_daemon_for n)
  boot : Confirms confirm_boot
  firmware : (b : Bytes) (ok : Bool) → Confirms (confirm_firmware b ok)

module _ (ext : Outside) (health : Health) (audit_json : EventJson) (messages : Messages)
    (split_at : ℕ) (f : Flags) where
  -- On a system without the marker of an installation, the daemon and the commands that confirm a boot or a
  -- firmware bundle end with the status 0, unless the power is lost, and change no file.
  pub inert :
      (c : Command) (w : World)
      → Confirms c
      → w.files f.installed_marker ≡ none
      → LeavesAlone (run_command ext health audit_json messages split_at f c) w
  unfolding run_command run_daemon
  inert c w (daemon n) h = gate_lem f.installed_marker _ w.files w.next w.faults h
  inert c w boot h = gate_lem f.installed_marker _ w.files w.next w.faults h
  inert c w (firmware b ok) h = gate_lem f.installed_marker _ w.files w.next w.faults h
