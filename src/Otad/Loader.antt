-- ===== src/Otad/Loader.antt =====
-- internal/otad/loader.go: the version that a boot loader carries, and the marker files of a candidate.
-- Paths are clean: no doubled slash and none at the end.
pub mod Image
pub mod Slot
pub mod Markers
use mathlib.Core.List.{reverse}
use atom_loops.Prelude.{
  Bool, true, false, not, ◌&&◌, ◌||◌, Option, none, some, List, [], ◌∷◌, ◌++◌, length, ltb, leb,
  ◌==◌, if◌then◌else◌,
}
use atom_loops.Prelude.Text.{Bytes, codes, is_empty, ◌=b◌, cut, cut_prefix, split, trim_space}
use atom_loops.Prelude.Int.{ℤ, pos, ltb_ℤ}
use atom_loops.Prelude.Numerals.{atoi, decimal_ℤ}
use atom_loops.System.Files.{FilePath, join}
use atom_loops.System.Io.{Io, pure, attempt, ignore, read_file, write_new, remove, ◌>>=◌, ◌>>◌}
use atom_loops.Otad.Slots.{StageDirs, sync_dir}

-- filepath.Dir, on the reversed path: what stands behind the last slash, and the slash, are dropped.
parent : Bytes → Bytes
parent [] = codes "."
parent (c ∷ s) =
    let rest = parent s in if c == b'/' then (if is_empty s then codes "/" else reverse s) else rest

unfoldable pub dir_of : Bytes → Bytes
unfolding parent
dir_of p = parent (reverse p)

-- loaderBootPath
abbrev pub loader_boot_path : StageDirs → FilePath
loader_boot_path dirs = join (dir_of dirs.esp ++ codes "/BOOT") (codes "BOOTX64.EFI")

abbrev pub loader_candidate : StageDirs → FilePath
loader_candidate dirs = join dirs.esp (codes "loader-candidate")

abbrev pub loader_ran : StageDirs → FilePath
loader_ran dirs = join dirs.esp (codes "loader-ran")

abbrev pub loader_failed : StageDirs → FilePath
loader_failed dirs = join dirs.esp (codes "loader-failed")

abbrev pub loader_prev : StageDirs → FilePath
loader_prev dirs = join dirs.esp (codes "loader-prev.efi")

abbrev pub kernelcache_next : StageDirs → FilePath
kernelcache_next dirs = join dirs.esp (codes "kernelcache-next.efi")

abbrev pub loader_marker : Bytes
loader_marker = codes "ATOM-LOADER-VERSION="

-- What follows the first occurrence of the marker.
unfoldable pub after_marker : Bytes → Bytes → Option Bytes
after_marker marker [] = cut_prefix marker []
after_marker marker (c ∷ s) =
    let rest = after_marker marker s in
    elim (cut_prefix marker (c ∷ s)) [ none ↦ rest | some t ↦ some t ]

number_or_one : ℤ × Bool → ℤ
number_or_one (v, good) = if not good || ltb_ℤ v (pos 1) then pos 1 else v

-- The text in front of the semicolon.
version_text : Option (Bytes × Bytes) → ℤ
version_text none = pos 1
version_text (some (s, t)) =
    if is_empty s || ltb 16 (length s) then pos 1 else number_or_one (atoi s)

marked_version : Option Bytes → ℤ
marked_version none = pos 1
marked_version (some t) = version_text (cut b';' t)

-- LoaderVersionOf
unfoldable pub loader_version_of : Bytes → ℤ
unfolding marked_version version_text number_or_one
loader_version_of image = marked_version (after_marker loader_marker image)

-- InstalledLoaderVersion and fileLoaderVersion: 0 where the file cannot be read.
unfoldable pub file_loader_version : FilePath → Io ℤ
file_loader_version p = attempt (read_file p) (λ b. pure (loader_version_of b)) (λ _. pure (pos 0))

unfoldable pub installed_loader_version : StageDirs → Io ℤ
installed_loader_version dirs = file_loader_version (loader_boot_path dirs)

-- The map of readKeyFile, the newest entry first. Lines are below the scanner's limit of 64 KiB, and the
-- file is read by one call.
abbrev pub Keys : Type 0
Keys = List (Bytes × Bytes)

with_line : Option (Bytes × Bytes) → Keys → Keys
with_line none ks = ks
with_line (some kv) ks = kv ∷ ks

read_key_lines : Keys → List Bytes → Keys
read_key_lines ks [] = ks
read_key_lines ks (l ∷ ls) = read_key_lines (with_line (cut b'=' (trim_space l)) ks) ls

unfoldable pub read_keys : Bytes → Keys
unfolding read_key_lines with_line
read_keys text = read_key_lines [] (split 10 text)

-- The value of a key, empty where there is none.
unfoldable pub key_value : Keys → Bytes → Bytes
key_value [] k = []
key_value ((k', v) ∷ ks) k = let rest = key_value ks k in if k' =b k then v else rest

unfoldable pub read_key_file : FilePath → Io Keys
read_key_file p = attempt (read_file p) (λ b. pure (read_keys b)) (λ _. pure [])

-- strconv.Atoi of the value, without its error.
abbrev pub version_in : Keys → ℤ
version_in ks = (atoi (key_value ks (codes "version"))).0

unfoldable pub marker_version : FilePath → Io ℤ
marker_version p = do ks ← read_key_file p; pure (version_in ks)

-- strings.Join(fields, "\n") + "\n"
unfoldable pub ended_lines : List Bytes → Bytes
ended_lines [] = []
ended_lines (s ∷ ss) = s ++ 10 ∷ ended_lines ss

unfoldable pub write_marker : FilePath → List Bytes → Io (Unit {0})
unfolding ended_lines
write_marker p fields = do write_new p (ended_lines fields); sync_dir

-- The fields of the marker of a candidate.
abbrev pub candidate_fields : ℤ → Bytes → List Bytes
candidate_fields version sum =
    (codes "version=" ++ decimal_ℤ version) ∷ (codes "sha256=" ++ sum) ∷ []

pub record LoaderStatus : Type 0 where
  pub installed : ℤ
  pub candidate : ℤ
  pub failed_version : ℤ
  pub path : FilePath

unfoldable pub read_loader_status : StageDirs → Io LoaderStatus
read_loader_status dirs = do
  installed ← installed_loader_version dirs
  candidate ← marker_version (loader_candidate dirs)
  failed_version ← marker_version (loader_failed dirs)
  pure (record {
    installed = installed;
    candidate = candidate;
    failed_version = failed_version;
    path = loader_boot_path dirs;
  })

unfoldable pub cancel_loader_candidate : StageDirs → Io (Unit {0})
cancel_loader_candidate dirs =
    if is_empty dirs.esp
    then pure tt
    else ignore (remove (loader_candidate dirs)) >> ignore (remove (loader_ran dirs))
