-- ===== src/Tests/Images.antt =====
-- The recovery image, the firmware slots and the boot loader on a small disk.
use atom_loops.Prelude.{◌≡◌, refl, ◌↔◌, true, false, none, some, [], ◌∷◌}
use atom_loops.Prelude.Text.{Bytes, codes}
use atom_loops.System.Files.{Files, File, FilePath, join, update}
use atom_loops.System.Io.{World, done, works, power_loss}
use atom_loops.Deployment.Wal.Crash.{restarted}
use atom_loops.Otad.Slots.{StageDirs}
use atom_loops.Otad.Recovery.{recovery_path, sig_of, swap_recovery, repair_recovery_slot}
use atom_loops.Otad.Recovery.Swap.{Holds}
use atom_loops.Otad.Recovery.Points.{at_start}
use atom_loops.Otad.Recovery.Survival.{Whole, repair-swap-Whole, repair-repair-mixed}
use atom_loops.Otad.Loader.{loader_boot_path}
use atom_loops.Otad.Loader.Image.{handle_loader_candidate}
use atom_loops.Otad.Loader.Image.Installed.{IsGuarded}
use atom_loops.Otad.Loader.Image.Guarded.{handle_loader_candidate-IsGuarded}
use atom_loops.Otad.Health.{Health, listed, run_health_checks}
use atom_loops.Otad.Health.Gate.{is_healthy, run_health_checks-is_healthy}

abbrev dirs : StageDirs
dirs = record {
  rootfs_dir = codes "/boot/rootfs";
  esp = codes "/efi";
  firmware_dir = codes "/boot/firmware";
}

abbrev file : Bytes → File
file s = record { inode = 0; content = s }

abbrev empty_files : Files
empty_files p = none

abbrev put : Bytes → Bytes → Files → Files
put n s f = update f (join (codes "/efi") n) (some (file s))

abbrev old_pair : Files → Files
old_pair f =
    put (codes "kernelcache-recovery.efi") (codes "old")
      (put (codes "kernelcache-recovery.efi.sig") (codes "old sig") f)

abbrev new_pair : Files → Files
new_pair f =
    put (codes "kernelcache-recovery-next.efi") (codes "new")
      (put (codes "kernelcache-recovery-next.efi.sig") (codes "new sig") f)

-- Power is lost after the old image was moved.
abbrev cut_off : World
cut_off = record {
  files = old_pair (new_pair empty_files);
  next = 1;
  faults = works ∷ works ∷ power_loss ∷ [];
}

cut_off-Holds :
    Holds dirs
      (at_start dirs
        (file (codes "old"))
        (file (codes "old sig"))
        (file (codes "new"))
        (file (codes "new sig")))
      cut_off.files
cut_off-Holds = record {
  image_is = refl;
  sig_is = refl;
  prev_is = refl;
  prev_sig_is = refl;
  next_is = refl;
  next_sig_is = refl;
}

repair-swap-Whole_example :
    Whole dirs
      (file (codes "old"))
      (file (codes "old sig"))
      (file (codes "new"))
      (file (codes "new sig"))
      (repair_recovery_slot dirs (restarted (swap_recovery dirs cut_off).1)).1.files
repair-swap-Whole_example =
    repair-swap-Whole dirs (file (codes "old")) (file (codes "old sig")) (file (codes "new"))
      (file (codes "new sig")) cut_off refl refl cut_off-Holds

-- The old pair has been moved, and the new signature is in place.
abbrev half_moved : World
half_moved = record {
  files = put (codes "kernelcache-recovery-prev.efi") (codes "old") (
      put (codes "kernelcache-recovery-prev.efi.sig") (codes "old sig") (
        put (codes "kernelcache-recovery-next.efi") (codes "new")
          (put (codes "kernelcache-recovery.efi.sig") (codes "new sig") empty_files)));
  next = 1;
  faults = works ∷ works ∷ works ∷ power_loss ∷ [];
}

repair-repair-mixed_example :
    let f =
      (repair_recovery_slot dirs (restarted (repair_recovery_slot dirs half_moved).1)).1.files in
    (f (recovery_path dirs) ≡ some (file (codes "old")))
    × (f (sig_of (recovery_path dirs)) ≡ some (file (codes "new sig")))
repair-repair-mixed_example =
    repair-repair-mixed dirs (file (codes "old")) (file (codes "old sig")) (file (codes "new"))
      (file (codes "new sig")) half_moved refl
      (record {
        image_is = refl;
        sig_is = refl;
        prev_is = refl;
        prev_sig_is = refl;
        next_is = refl;
        next_sig_is = refl;
      })
      refl

-- A candidate that ran, with a hash that is the hexadecimal form of its bytes.
abbrev tried_disk : World
tried_disk = record {
  files = put (codes "loader-candidate") (codes "version=3\nsha256=4142\n") (
      put (codes "loader-ran") (codes "version=3\n")
        (put (codes "kernelcache-next.efi") (codes "AB") empty_files));
  next = 1;
  faults = [];
}

handle_loader_candidate-IsGuarded_example :
    IsGuarded
      (λ b. b)
      dirs
      tried_disk.files
      ((handle_loader_candidate (λ b. b) dirs tried_disk).1.files (loader_boot_path dirs))
handle_loader_candidate-IsGuarded_example =
    handle_loader_candidate-IsGuarded (λ b. b) dirs tried_disk

abbrev one_check : Health
one_check = record {
  listing = listed (record { name = codes "net"; is_dir = false; mode = some 493 } ∷ []);
  passes = λ s. false;
}

run_health_checks-is_healthy_example :
    ((run_health_checks one_check tried_disk).0 ≡ done tt) ↔ (is_healthy one_check ≡ true)
run_health_checks-is_healthy_example = run_health_checks-is_healthy one_check tried_disk

abbrev log_path : FilePath
log_path = join (codes "/efi") (codes "deployment.json")
