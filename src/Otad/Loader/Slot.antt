-- ===== src/Otad/Loader/Slot.antt =====
-- internal/otad/loader.go: which release each kernel image of the ESP holds. The reader of PE files is a
-- parameter: `none` where a file is no PE file, and then the data of the section of a name, if it is there.
use mathlib.Core.List.{reverse}
use atom_loops.Prelude.{
  ℕ, Bool, true, false, not, ◌&&◌, ◌||◌, Option, none, some, List, [], ◌∷◌, ◌++◌, ◌==◌,
  if◌then◌else◌,
}
use atom_loops.Prelude.Text.{
  Bytes, codes, is_empty, is_space, ◌=b◌, cut_prefix, trim_prefix, fields_func,
}
use atom_loops.Prelude.Int.{ℤ, pos, ◌=z◌}
use atom_loops.Prelude.Numerals.{decimal_ℤ}
use atom_loops.System.Files.{FilePath, join}
use atom_loops.System.Io.{Io, pure, attempt, found, read_file, ◌>>=◌}
use atom_loops.Otad.BootState.{no_state, read_state}
use atom_loops.Otad.Slots.{StageDirs, boot_state_path}
use atom_loops.Otad.Loader.{loader_candidate, marker_version}

abbrev pub Sections : Type 0
Sections = Bytes → Option (Bytes → Option Bytes)

abbrev trim_front : (ℕ → Bool) → Bytes → Bytes
trim_front p [] = []
trim_front p (c ∷ s) = let rest = trim_front p s in if p c then rest else c ∷ s

-- strings.Trim
abbrev trim_by : (ℕ → Bool) → Bytes → Bytes
trim_by p s = reverse (trim_front p (reverse (trim_front p s)))

abbrev is_padding : ℕ → Bool
is_padding c = c == 0 || c == b' ' || c == 10

abbrev is_zero : ℕ → Bool
is_zero c = c == 0

-- The first argument with that key.
version_argument : List Bytes → Bytes
version_argument [] = []
version_argument (a ∷ rest_args) =
    let rest = version_argument rest_args in
    elim (cut_prefix (codes "atom.version=") a) [ none ↦ rest | some v ↦ v ]

of_cmdline : Option Bytes → Bytes
of_cmdline none = []
of_cmdline (some b) = version_argument (fields_func is_space (trim_by is_zero b))

of_atomver : Option Bytes → Bytes → Bytes
of_atomver none other = other
of_atomver (some b) other =
    let v = trim_by is_padding b in
    if not (is_empty v) then codes "v" ++ trim_prefix (codes "v") v else other

of_image : Option (Bytes → Option Bytes) → Bytes
of_image none = []
of_image (some section) =
    of_atomver (section (codes ".atomver")) (of_cmdline (section (codes ".cmdline")))

-- KernelcacheVersion
unfoldable pub kernelcache_version : Sections → FilePath → Io Bytes
unfolding of_image of_atomver of_cmdline version_argument
kernelcache_version pe p = attempt (read_file p) (λ b. pure (of_image (pe b))) (λ _. pure [])

pub record BootInfo : Type 0 where
  pub target : Bytes
  pub trial : Bool
  pub slots : List (Bytes × Bytes)

abbrev slot_image : StageDirs → Bytes → FilePath
slot_image dirs slot = join dirs.esp (codes "kernelcache-" ++ (slot ++ codes ".efi"))

or_present : Bytes → Bytes
or_present v = if is_empty v then codes "present" else v

slot_text : Sections → StageDirs → ℤ → Bytes → Io Bytes
slot_text pe dirs cand slot =
    if slot =b codes "next" && not (cand =z pos 0)
    then pure (codes "loader " ++ decimal_ℤ cand)
    else (do v ← kernelcache_version pe (slot_image dirs slot); pure (or_present v))

add_slot :
    Sections → StageDirs → ℤ → Bytes → List (Bytes × Bytes) → Bool → Io (List (Bytes × Bytes))
add_slot pe dirs cand slot acc false = pure acc
add_slot pe dirs cand slot acc true = do
  v ← slot_text pe dirs cand slot
  pure (acc ++ (slot, v) ∷ [])

-- The loop of ReadBootInfo; the map as a list.
read_slots :
    Sections → StageDirs → ℤ → List (Bytes × Bytes) → List Bytes → Io (List (Bytes × Bytes))
read_slots pe dirs cand acc [] = pure acc
read_slots pe dirs cand acc (slot ∷ ss) = do
  there ← found (slot_image dirs slot)
  acc ← add_slot pe dirs cand slot acc there
  read_slots pe dirs cand acc ss

abbrev slot_names : List Bytes
slot_names = codes "active" ∷ codes "next" ∷ codes "prev" ∷ codes "recovery" ∷ []

unfoldable pub read_boot_info : Sections → StageDirs → Io BootInfo
unfolding read_slots add_slot slot_text or_present
read_boot_info pe dirs = do
  bs ← attempt (read_file (boot_state_path dirs)) (λ b. pure (read_state b)) (λ _. pure no_state)
  cand ← marker_version (loader_candidate dirs)
  slots ← read_slots pe dirs cand [] slot_names
  pure (record {
    target = if is_empty bs.target then codes "active" else bs.target;
    trial = bs.trial;
    slots = slots;
  })
