-- ===== src/Otad/Slots.antt =====
-- internal/otad/slots.go: the boot-state on disk, and the promotion of slot files.
pub mod Written
pub mod Frame
pub mod Promotion
use atom_loops.Prelude.{
  ℕ, zero, suc, Bool, true, false, not, ◌&&◌, Option, none, some, List, [], ◌∷◌, ◌++◌, ◌==◌, length,
  if◌then◌else◌,
}
use atom_loops.Prelude.Text.{Bytes, codes, is_empty, ◌=b◌}
use atom_loops.System.Files.{FilePath, join, File}
use atom_loops.System.Io.{
  Io, message, pure, throw, attempt, ignore, after, label, settle, stat, read_file, create_temp,
  write, rename, remove, link, ◌>>=◌, ◌>>◌,
}
use atom_loops.Deployment.State.{Deployment}
use atom_loops.Otad.BootState.{BootState, marshal, choose}

-- internal/otad/stage.go
pub record StageDirs : Type 0 where
  pub rootfs_dir : Bytes
  pub esp : Bytes
  pub firmware_dir : Bytes

-- The sync of the ESP, where the error of a call is no failure.
sync_if_possible : Io (Unit {0})
sync_if_possible = attempt settle (λ _. ignore settle >> ignore settle) (λ _. pure tt)

unfoldable pub write_boot_state : FilePath → BootState → Io (Unit {0})
unfolding sync_if_possible
write_boot_state p b = do
  settle
  tmp ← create_temp
  after (do write tmp (marshal b); settle; settle; rename tmp p; sync_if_possible) (remove tmp)

abbrev pub boot_state_path : StageDirs → FilePath
boot_state_path dirs = join dirs.esp (codes "boot-state")

unfoldable pub write_deployment_boot_state : Deployment → StageDirs → Io (Unit {0})
write_deployment_boot_state d dirs =
    if is_empty dirs.esp then pure tt else write_boot_state (boot_state_path dirs) (choose d)

pub record SlotGroup : Type 0 where
  pub dir : Bytes
  pub prefix : Bytes
  pub suffixes : List Bytes

holds_something : Option File → Bool
holds_something none = false
holds_something (some x) = not (is_empty x.content)

unfoldable pub non_empty : FilePath → Io Bool
unfolding holds_something
non_empty p = attempt (stat p) (λ o. pure (holds_something o)) (λ _. pure false)

same_inode : Option File → Option File → Bool
same_inode none y = false
same_inode (some x) none = false
same_inode (some x) (some y) = x.inode == y.inode

unfoldable pub same_file_identity : FilePath → FilePath → Io Bool
unfolding same_inode
same_file_identity a b =
    attempt (stat a) (λ x. attempt (stat b) (λ y. pure (same_inode x y)) (λ _. pure false))
      (λ _. pure false)

-- syncDir: the open and the sync; the errors that it forgives count as a sync that works.
unfoldable pub sync_dir : Io (Unit {0})
sync_dir = do settle; settle

unfoldable pub copy_file_sync : FilePath → FilePath → Io (Unit {0})
copy_file_sync src dst = do
  s ← read_file src
  tmp ← create_temp
  after (do write tmp s; settle; settle; rename tmp dst; sync_dir) (remove tmp)

unfoldable pub link_file_sync : FilePath → FilePath → Io (Unit {0})
link_file_sync src dst = do
  tmp ← create_temp
  attempt settle pure (λ e. ignore (remove tmp) >> throw e)
  remove tmp
  link src tmp
  after (do rename tmp dst; sync_dir) (remove tmp)

abbrev pub next_path : SlotGroup → Bytes → FilePath
next_path g s = join g.dir (g.prefix ++ (codes "-next" ++ s))

abbrev pub active_path : SlotGroup → Bytes → FilePath
active_path g s = join g.dir (g.prefix ++ (codes "-active" ++ s))

abbrev pub prev_path : SlotGroup → Bytes → FilePath
prev_path g s = join g.dir (g.prefix ++ (codes "-prev" ++ s))

-- The two loops of preflightSlots over the suffixes of a group.
count_staged : SlotGroup → ℕ → List Bytes → Io ℕ
count_staged g n [] = pure n
count_staged g n (s ∷ ss) = do
  staged ← non_empty (next_path g s)
  count_staged g (if staged then suc n else n) ss

check_active : Bool → Io (Unit {0})
check_active active = if active then pure tt else throw (message "promote: no active slot")

check_suffix : SlotGroup → Bytes → Bool → Io (Unit {0})
check_suffix g s true = non_empty (active_path g s) >>= check_active
check_suffix g s false = throw (message "promote: partially staged")

check_suffixes : SlotGroup → List Bytes → Io (Unit {0})
check_suffixes g [] = pure tt
check_suffixes g (s ∷ ss) = do
  staged ← non_empty (next_path g s)
  check_suffix g s staged
  check_suffixes g ss

check_staged : SlotGroup → ℕ → Io (Unit {0})
check_staged g zero = throw (message "promote: candidate is missing")
check_staged g (suc n) = check_suffixes g g.suffixes

check_group : SlotGroup → Io (Unit {0})
check_group g = if is_empty g.dir then pure tt else count_staged g 0 g.suffixes >>= check_staged g

unfoldable pub preflight_slots : List SlotGroup → Io (Unit {0})
unfolding check_group check_staged check_suffixes check_suffix check_active count_staged
preflight_slots [] = pure tt
preflight_slots (g ∷ gs) = check_group g >> preflight_slots gs

abbrev pub kernelcache_suffixes : List Bytes
kernelcache_suffixes = codes ".efi" ∷ codes ".efi.sig" ∷ []

abbrev pub rootfs_suffixes : List Bytes
rootfs_suffixes = codes ".erofs" ∷ codes ".hash" ∷ []

abbrev pub slot_groups : StageDirs → List SlotGroup
slot_groups dirs =
    record { dir = dirs.rootfs_dir; prefix = codes "rootfs"; suffixes = rootfs_suffixes }
    ∷ record { dir = dirs.esp; prefix = codes "kernelcache"; suffixes = kernelcache_suffixes }
    ∷ []

-- The sequence of one slot file: the active one becomes the previous one, the next one the active one.
shift_slot : (FilePath → FilePath → Io (Unit {0})) → SlotGroup → Bytes → Bool → Io (Unit {0})
shift_slot put g s true = pure tt
shift_slot put g s false = do
  label "promote: active->prev" (put (active_path g s) (prev_path g s))
  label "promote: next->active" (put (next_path g s) (active_path g s))

-- `sha256` is the hash of crypto/sha256.
module _ (sha256 : Bytes → Bytes) where
  same_bytes : Bytes → Bytes → Bool
  same_bytes x y = length x == length y && sha256 x =b sha256 y

  unfoldable pub same_file_content : FilePath → FilePath → Io Bool
  unfolding same_bytes
  same_file_content a b =
      attempt (read_file a)
        (λ x. attempt (read_file b) (λ y. pure (same_bytes x y)) (λ _. pure false))
        (λ _. pure false)

  promote_slot : SlotGroup → Bytes → Bool → Io (Unit {0})
  promote_slot g s false = pure tt
  promote_slot g s true =
      if g.prefix =b codes "kernelcache"
      then same_file_content (active_path g s) (next_path g s) >>= shift_slot copy_file_sync g s
      else same_file_identity (active_path g s) (next_path g s) >>= shift_slot link_file_sync g s

  promote_suffixes : SlotGroup → List Bytes → Io (Unit {0})
  promote_suffixes g [] = pure tt
  promote_suffixes g (s ∷ ss) = do
    staged ← non_empty (next_path g s)
    promote_slot g s staged
    promote_suffixes g ss

  promote_groups : List SlotGroup → Io (Unit {0})
  promote_groups [] = pure tt
  promote_groups (g ∷ gs) = promote_suffixes g g.suffixes >> promote_groups gs

  unfoldable pub promote_slots : StageDirs → Io (Unit {0})
  unfolding promote_groups promote_suffixes promote_slot shift_slot
  promote_slots dirs = do preflight_slots (slot_groups dirs); promote_groups (slot_groups dirs)

-- The removal of the next files of a directory, if it is set.
remove_next : Bytes → Bytes → List Bytes → Io (Unit {0})
remove_next dir prefix [] = pure tt
remove_next dir prefix (s ∷ ss) =
    ignore (remove (join dir (prefix ++ (codes "-next" ++ s)))) >> remove_next dir prefix ss

clean_dir : Bytes → Bytes → List Bytes → Io (Unit {0})
clean_dir dir prefix ss = if is_empty dir then pure tt else remove_next dir prefix ss

unfoldable pub cleanup_next_slots : StageDirs → Io (Unit {0})
unfolding clean_dir remove_next
cleanup_next_slots dirs = do
  clean_dir dirs.esp (codes "kernelcache") kernelcache_suffixes
  clean_dir dirs.rootfs_dir (codes "rootfs") rootfs_suffixes
