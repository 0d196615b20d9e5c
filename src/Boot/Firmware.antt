-- ===== src/Boot/Firmware.antt =====
-- boot/firmware.go: the firmware bundles that the early boot mounts. FwOps stands for the kernel and for
-- boot/loop.go, boot/verity.go and boot/system.go, which call it; the messages of Logf are not modelled.
pub mod Overlay
pub mod Mapped
pub mod Kept
use atom_loops.Prelude.{
  ℕ, Bool, true, false, not, ◌&&◌, ◌||◌, Option, none, some, List, [], ◌∷◌, ◌++◌, ltb, leb, ◌==◌,
  if◌then◌else◌,
}
use atom_loops.Prelude.Text.{Bytes, codes, is_empty, trim_space, split, cut, has_prefix, ◌=b◌}
use atom_loops.Prelude.Numerals.{Parsed, number, syntax, range, parse_uint}
use atom_loops.Prelude.Assoc.{Assoc, lookup, insert}
use atom_loops.System.Files.{File, join}
use atom_loops.System.Io.{World, Outcome, done, failed, lost}
use atom_loops.Trust.{Crypto}
use atom_loops.Otad.Manifest.{FirmwareBundleSpec, Decoder}
use atom_loops.Otad.Anchor.{verified_firmware_bundle, active_slot}
use atom_loops.Boot.Kernel.{St, ◌>>=◌, ◌>>◌, pure, ask}
use atom_loops.Boot.Verity.{valid_root_hash}

-- `disk` is what a read finds, `dir_names` the directories in a directory in the order of os.ReadDir, and
-- empty where it fails, `exists` tells whether os.Stat works; `running` is the release that uname tells. `none` and `false` are errors.
pub record FwOps : Type 1 where
  pub Kernel : Type 0
  pub disk : Kernel → World
  pub dir_names : Kernel → Bytes → List Bytes
  pub exists : Kernel → Bytes → Bool
  pub is_dir : Kernel → Bytes → Bool
  pub running : Kernel → Bytes
  pub attach_loop : Bytes → St Kernel (Option Bytes)
  pub detach_loop : Bytes → St Kernel (Unit {0})
  pub open_verity : Bytes → Bytes → Bytes → Bytes → St Kernel (Option Bytes)
  pub close_verity : Bytes → St Kernel (Unit {0})
  pub has_erofs : Kernel → Bytes → Bool
  pub mount : Bytes → Bytes → Bytes → Bytes → St Kernel Bool
  pub bind : Bytes → Bytes → St Kernel Bool
  pub unmount : Bytes → St Kernel (Unit {0})

pub record MountedBundle : Type 0 where
  pub name : Bytes
  pub mapper : Bytes
  pub loops : List Bytes
  pub mnt : Bytes
  pub target : Bytes
  pub version : ℕ

-- What the loop of MountFirmware has collected.
pub record Mounted : Type 0 where
  pub firmware : List MountedBundle
  pub overlays : Assoc MountedBundle

abbrev pub new_root : Bytes
new_root = codes "/sysroot"

-- One line of an .overlay file; a version that is no uint64 refuses the file.
read_pair : Option (Bytes × Bytes) → Bytes × ℕ → Option (Bytes × ℕ)
read_pair none (t, v) = some (t, v)
read_pair (some (key, value)) (t, v) =
    if key =b codes "target"
    then some (value, v)
    else (if key =b codes "version"
        then elim (parse_uint value) [ number n ↦ some (t, n) | syntax ↦ none | range ↦ none ]
        else some (t, v))

read_overlay_lines : List Bytes → Bytes × ℕ → Option (Bytes × ℕ)
read_overlay_lines [] r = some r
read_overlay_lines (l ∷ ls) r = elim (read_pair (cut b'=' (trim_space l)) r) [
  | none ↦ none
  | some s ↦ read_overlay_lines ls s
]

-- A rooted path is what filepath.Clean makes of it: it has no empty part and no `.` or `..`.
clean_parts : List Bytes → Bool
clean_parts [] = true
clean_parts (p ∷ ps) = not (is_empty p || p =b codes "." || p =b codes "..") && clean_parts ps

behind_root : List Bytes → List Bytes
behind_root [] = []
behind_root (p ∷ ps) = ps

unfoldable pub is_clean : Bytes → Bool
unfolding clean_parts behind_root
is_clean t = clean_parts (behind_root (split b'/' t))

checked_overlay : Bytes × ℕ → Option (Bytes × ℕ)
checked_overlay (t, v) =
    if v == 0
      || not (is_clean t)
      || not (has_prefix (codes "/usr/") t)
      || t =b codes "/usr/lib/firmware"
    then none
    else some (t, v)

-- parseOverlay
unfoldable pub parse_overlay : Bytes → Option (Bytes × ℕ)
unfolding read_overlay_lines read_pair checked_overlay
parse_overlay text = elim (read_overlay_lines (split 10 text) ([], 0)) [
  | none ↦ none
  | some r ↦ checked_overlay r
]

-- readABI's strings.Map.
unfoldable pub without_space : Bytes → Bytes
without_space [] = []
without_space (c ∷ s) =
    if c == 13 || c == 10 || c == 32 then without_space s else c ∷ without_space s

mounts_of : List MountedBundle → Bytes
mounts_of [] = []
mounts_of (b ∷ bs) = b.mnt ++ codes ":" ++ mounts_of bs

module _ (ops : FwOps) where
  open ops use {
    Kernel, disk, dir_names, exists, is_dir, running, attach_loop, detach_loop, open_verity,
    close_verity, has_erofs, mount, bind, unmount,
  }

  abbrev read_at : Kernel → Bytes → Bytes → Option Bytes
  read_at k dir name = elim ((disk k).files (join dir name)) [
    | none ↦ none
    | some x ↦ some x.content
  ]

  base_allows : Option Bytes → ℕ → Bool
  base_allows none version = true
  base_allows (some b) version = elim (parse_uint (trim_space b)) [
    | number n ↦ ltb n version
    | syntax ↦ false
    | range ↦ false
  ]

  -- overlayWanted, in the new root.
  unfoldable pub overlay_wanted : Kernel → Bytes → ℕ → Bool
  unfolding base_allows
  overlay_wanted k target version =
      is_dir k (new_root ++ target)
      && base_allows (read_at k (new_root ++ target) (codes ".overlay-version")) version

  detach_loops : List Bytes → St Kernel (Unit {0})
  detach_loops [] = pure tt
  detach_loops (l ∷ ls) = detach_loop l >> detach_loops ls

  -- release
  unfoldable pub release_bundle : MountedBundle → St Kernel (Unit {0})
  unfolding detach_loops
  release_bundle b = do
    if is_empty b.mnt then pure tt else unmount b.mnt
    close_verity b.mapper
    detach_loops b.loops

  release_all : List MountedBundle → St Kernel (Unit {0})
  release_all [] = pure tt
  release_all (b ∷ bs) = release_bundle b >> release_all bs

  abbrev pub attached_bundle : Bytes → List Bytes → MountedBundle
  attached_bundle name loops = record {
    name = name;
    mapper = name ++ codes "-fwverity";
    loops = loops;
    mnt = [];
    target = [];
    version = 0;
  }

  abbrev pub mount_point : Bytes → Bytes
  mount_point name = new_root ++ codes "/var/.fw-" ++ name

  mounted_at : MountedBundle → Bytes → Bool → St Kernel (Option MountedBundle)
  mounted_at b mnt true = pure (some (record b { mnt = mnt }))
  mounted_at b mnt false = release_bundle b >> pure none

  with_node : MountedBundle → Option Bytes → St Kernel (Option MountedBundle)
  with_node b none = release_bundle b >> pure none
  with_node b (some node) = do
    image ← ask (λ k. has_erofs k node)
    if not image
        then release_bundle b >> pure none
        else mount node (mount_point b.name) (codes "erofs") []
          >>= mounted_at b (mount_point b.name)

  with_hash_loop : Bytes → Bytes → Bytes → Option Bytes → St Kernel (Option MountedBundle)
  with_hash_loop name root_hash dl none =
      release_bundle (attached_bundle name (dl ∷ [])) >> pure none
  with_hash_loop name root_hash dl (some hl) =
      open_verity (name ++ codes "-fwverity") dl hl root_hash
      >>= with_node (attached_bundle name (dl ∷ hl ∷ []))

  with_loop : Bytes → Bytes → Bytes → Option Bytes → St Kernel (Option MountedBundle)
  with_loop name hash root_hash none = pure none
  with_loop name hash root_hash (some dl) = attach_loop hash >>= with_hash_loop name root_hash dl

  -- mountBundle
  unfoldable pub mount_bundle : Bytes → Bytes → Bytes → Bytes → St Kernel (Option MountedBundle)
  unfolding with_loop with_hash_loop with_node mounted_at
  mount_bundle name img hash root_hash = attach_loop img >>= with_loop name hash root_hash

  -- An overlay bundle, against the one that is kept for its target.
  replace_overlay : MountedBundle → Mounted → Option MountedBundle → St Kernel Mounted
  replace_overlay b m none = pure (record m { overlays = insert b.target b m.overlays })
  replace_overlay b m (some old) =
      if leb b.version old.version
      then release_bundle b >> pure m
      else release_bundle old >> pure (record m { overlays = insert b.target b m.overlays })

  unfoldable pub place_overlay : MountedBundle → Mounted → Option (Bytes × ℕ) → St Kernel Mounted
  unfolding replace_overlay
  place_overlay b m none = release_bundle b >> pure m
  place_overlay b m (some (t, v)) = do
    wanted ← ask (λ k. overlay_wanted k t v)
    if not wanted
        then release_bundle b >> pure m
        else replace_overlay (record b { target = t; version = v }) m (lookup t m.overlays)

  -- A driver bundle stays mounted on its own, another one joins the union.
  place_firmware : MountedBundle → Mounted → Option Bytes → St Kernel Mounted
  place_firmware b m none = pure (record m { firmware = b ∷ m.firmware })
  place_firmware b m (some abi) = do
    release ← ask running
    if not (without_space abi =b release) then release_bundle b >> pure m else pure m

  place_text : MountedBundle → Mounted → Option Bytes → St Kernel Mounted
  place_text b m none = ask (λ k. read_at k b.mnt (codes ".kernel-abi")) >>= place_firmware b m
  place_text b m (some text) = place_overlay b m (parse_overlay text)

  unfoldable pub place_bundle : Mounted → Option MountedBundle → St Kernel Mounted
  unfolding place_text place_firmware
  place_bundle m none = pure m
  place_bundle m (some b) = ask (λ k. read_at k b.mnt (codes ".overlay")) >>= place_text b m

  apply_bound : MountedBundle → Bytes → Bool → St Kernel (Unit {0})
  apply_bound b base false = release_bundle b
  apply_bound b base true = do
    over ←
        mount (codes "overlay") (new_root ++ b.target) (codes "overlay")
          (codes "lowerdir=" ++ b.mnt ++ codes ":" ++ base)
    if over then pure tt else unmount base >> release_bundle b

  -- applyOverlay
  unfoldable pub apply_overlay : MountedBundle → St Kernel (Unit {0})
  unfolding apply_bound
  apply_overlay b =
      bind (new_root ++ b.target) (new_root ++ codes "/var/.base-" ++ b.name)
      >>= apply_bound b (new_root ++ codes "/var/.base-" ++ b.name)

  -- Go ranges over the map in any order; here it is that of the association list.
  apply_overlays : Assoc MountedBundle → St Kernel (Unit {0})
  apply_overlays [] = pure tt
  apply_overlays ((t, b) ∷ m) = apply_overlay b >> apply_overlays m

  abbrev base_firmware : Bytes
  base_firmware = new_root ++ codes "/var/.base-firmware"

  union_bound : List MountedBundle → Bool → St Kernel (Unit {0})
  union_bound bs false = release_all bs
  union_bound bs true = do
    over ←
        mount (codes "overlay") (new_root ++ codes "/usr/lib/firmware") (codes "overlay")
          (codes "lowerdir=" ++ mounts_of bs ++ base_firmware)
    if over then pure tt else unmount base_firmware >> release_all bs

  -- unionFirmware
  unfoldable pub union_firmware : List MountedBundle → St Kernel (Unit {0})
  unfolding union_bound release_all mounts_of
  union_firmware [] = pure tt
  union_firmware (b ∷ bs) =
      bind (new_root ++ codes "/usr/lib/firmware") base_firmware >>= union_bound (b ∷ bs)

  module _ (crypto : Crypto) (decoder : Decoder) (now : ℕ) (root_pub : Bytes) where
    anchor_root : Outcome FirmwareBundleSpec → Option Bytes
    anchor_root (done fw) = if valid_root_hash fw.verity_hash then some fw.verity_hash else none
    anchor_root (failed e) = none
    anchor_root lost = none

    -- The root hash that the bundle's anchor vouches for.
    unfoldable pub anchored_hash : Kernel → Bytes → Bytes → Option Bytes
    unfolding anchor_root
    anchored_hash k dir name =
        anchor_root
          (verified_firmware_bundle crypto decoder dir active_slot root_pub now name (disk k)).0

    with_anchor : Bytes → Bytes → Mounted → Option Bytes → St Kernel Mounted
    with_anchor dir name m none = pure m
    with_anchor dir name m (some h) =
        mount_bundle name (dir ++ codes "/firmware-active.img")
          (dir ++ codes "/firmware-active.hash") h
        >>= place_bundle m

    -- One round of the loop of MountFirmware.
    unfoldable pub add_bundle : Bytes → Bytes → Mounted → St Kernel Mounted
    unfolding with_anchor
    add_bundle fwroot name m = do
      here ← ask (λ k. exists k (fwroot ++ codes "/" ++ name ++ codes "/firmware-active.img"))
      if not here
          then pure m
          else ask (λ k. anchored_hash k (fwroot ++ codes "/" ++ name) name)
            >>= with_anchor (fwroot ++ codes "/" ++ name) name m

    add_each_bundle : Bytes → List Bytes → Mounted → St Kernel Mounted
    add_each_bundle fwroot [] m = pure m
    add_each_bundle fwroot (n ∷ ns) m = add_bundle fwroot n m >>= add_each_bundle fwroot ns

    -- The loop, over the directories that are there when it starts.
    unfoldable pub collect_bundles : Bytes → St Kernel Mounted
    unfolding add_each_bundle
    collect_bundles fwroot = do
      names ← ask (λ k. dir_names k fwroot)
      add_each_bundle fwroot names (record { firmware = []; overlays = [] })

  mount_with : Crypto → Decoder → ℕ → Bytes → Option Bytes → St Kernel (Unit {0})
  mount_with crypto decoder now fwroot none = pure tt
  mount_with crypto decoder now fwroot (some root_pub) = do
    m ← collect_bundles crypto decoder now root_pub fwroot
    apply_overlays m.overlays
    union_firmware m.firmware

  -- MountFirmware; `key` names the file of the root key.
  unfoldable pub mount_firmware : Crypto → Decoder → ℕ → Bytes × Bytes → St Kernel (Unit {0})
  unfolding mount_with apply_overlays
  mount_firmware crypto decoder now (dir, name) = do
    there ← ask (λ k. exists k (new_root ++ codes "/boot/firmware"))
    if not there
        then pure tt
        else ask (λ k. read_at k dir name)
          >>= mount_with crypto decoder now (new_root ++ codes "/boot/firmware")
