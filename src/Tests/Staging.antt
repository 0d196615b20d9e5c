-- ===== src/Tests/Staging.antt =====
-- The log that staging marks.
use atom_loops.Prelude.{◌≡◌, refl, none, some, []}
use atom_loops.Prelude.Text.{codes}
use atom_loops.System.Files.{FilePath, join, update}
use atom_loops.System.Io.{
  World, attempt, ◌>>=◌, read_file, call, settle, create_temp, fresh, write, rename, remove,
}
use atom_loops.Deployment.State.{Deployment, get_bundle}
use atom_loops.Deployment.Transition.{new, deploy, deploy_firmware}
use atom_loops.Deployment.Wal.{Json, load, save, write_file_sync, fsync_dir}
use atom_loops.Otad.Outside.{Outside}
use atom_loops.Otad.Slots.{StageDirs}
use atom_loops.Otad.Stage.{mark_candidate, staged_bundles, needed_bundles, target_kernel}
use atom_loops.Otad.Stage.Marked.{IsMarked, mark_candidate-IsMarked}
use atom_loops.Otad.Manifest.{firmware_bundle_list}
use atom_loops.Otad.Hardware.{
  matches_hardware, is_gpu_chip, cmp_kernel, cmp_parts, split_ver, cmp_part,
}
use atom_loops.Prelude.Numerals.{atoi}
use atom_loops.Prelude.Assoc.{lookup}
use atom_loops.Tests.Network.{outside}
use atom_loops.Tests.Update.{update as release}

abbrev old_log : Deployment
old_log = new (codes "now") (codes "device") (codes "rel1")

abbrev old_json : Json
old_json = record { encode = λ d. some (codes "log"); decode = λ b. some old_log }

abbrev ext : Outside
ext = record outside { json = old_json }

abbrev log_path : FilePath
log_path = join (codes "/sysdata/boot") (codes "deployment.json")

abbrev dirs : StageDirs
dirs = record {
  rootfs_dir = codes "/boot/rootfs";
  esp = codes "/efi";
  firmware_dir = codes "/boot/firmware";
}

abbrev disk : World
disk = record {
  files = update (λ p. none) log_path (some (record { inode = 0; content = codes "log" }));
  next = 1;
  faults = [];
}

mark_candidate-IsMarked_example :
    (e : Deployment) × IsMarked release (staged_bundles ext release) old_log e
    × (mark_candidate ext log_path dirs release disk ≡ save old_json log_path e disk)
unfolding load attempt ◌>>=◌ read_file call mark_candidate save write_file_sync create_temp fresh
    write settle rename fsync_dir remove staged_bundles needed_bundles firmware_bundle_list
    matches_hardware deploy deploy_firmware get_bundle is_gpu_chip target_kernel cmp_kernel
    cmp_parts split_ver cmp_part atoi lookup new
mark_candidate-IsMarked_example =
    mark_candidate-IsMarked ext log_path dirs release old_log disk disk refl refl
