-- ===== src/Boot/Media.antt =====
-- boot/root.go: the configuration of a boot, and the search for boot media.
use atom_loops.Prelude.{
  ℕ, Bool, true, false, not, ◌&&◌, ◌||◌, Option, none, some, List, [], ◌∷◌, ◌++◌, ◌==◌,
  if◌then◌else◌,
}
use atom_loops.Prelude.Text.{Bytes, codes, is_empty, mem_bytes, has_prefix, split}
use atom_loops.Boot.Kernel.{Partition, St, Ops, ◌>>=◌, ◌>>◌, pure, ask}
use mathlib.Core.List.{reverse}

pub record Config : Type 0 where
  pub root_hash : Bytes
  pub live : Bool
  pub portable : Bool
  pub portable_root : Bytes
  pub portable_hash : Bytes
  pub unlocked : Bool
  pub data_mount : Bytes
  pub iso_mount : Bytes
  pub attempts : ℕ
  pub interval : ℕ

abbrev or_default : Bytes → Bytes → Bytes
or_default s d = if is_empty s then d else s

-- defaults; the interval in milliseconds.
unfoldable pub with_defaults : Config → Config
with_defaults c = record c {
  data_mount = or_default c.data_mount (codes "/sysdata");
  iso_mount = or_default c.iso_mount (codes "/isomedia");
  attempts = if c.attempts == 0 then 75 else c.attempts;
  interval = if c.interval == 0 then 200 else c.interval;
  live = c.portable || c.live;
}

pub record Media : Type 0 where
  pub data_dev : Bytes
  pub slot_datas : List Bytes
  pub slot_hashes : List Bytes
  pub iso_dev : Bytes
  pub iso_data : Bytes
  pub iso_hash : Bytes

pub record Root : Type 0 where
  pub source : Bytes
  pub image : Bytes
  pub hash : Bytes
  pub mapper : Bytes
  pub optical : Bool
  pub from_slot : Bool

abbrev pub root_mapper : Bytes
root_mapper = codes "vroot"

-- filepath.Base of a device path: what stands behind its last slash.
last_part : Bytes → List Bytes → Bytes
last_part d [] = d
last_part d (p ∷ ps) = last_part p ps

unfoldable pub is_optical : Partition → Bool
unfolding last_part
is_optical p = has_prefix (codes "sr") (last_part [] (split b'/' p.dev))

is_image : Bytes → Bool
is_image f = has_prefix (reverse (codes ".erofs")) (reverse f)

unfoldable pub portable_part : Config → Partition → List Bytes → Bool
portable_part c p names = not c.portable || mem_bytes p.part_name names

abbrev pub raw_root : Bytes → Root
raw_root d = record {
  source = d;
  image = d;
  hash = [];
  mapper = [];
  optical = false;
  from_slot = false;
}

module _ (ops : Ops) where
  open ops use {
    Kernel, partitions, mount_data, unmount, glob, exists_at, attach_loop, detach_loop, open_verity,
    close_verity, has_erofs, is_verity_hash, hash_root, dev_bytes, mount_iso, disk_of, sleep,
  }

  -- The loop of FindData over the slot files.
  attach_files : List Bytes → Media → St Kernel Media
  attach_files [] m = pure m
  attach_files (f ∷ fs) m = do
    loop ← attach_loop f
    attach_files fs (elim loop [
      | none ↦ m
      | some l ↦
          if is_image f
          then record m { slot_datas = m.slot_datas ++ l ∷ [] }
          else record m { slot_hashes = m.slot_hashes ++ l ∷ [] }
    ])

  abbrev slot_files : Config → Bytes → Bytes
  slot_files c suffix = c.data_mount ++ (codes "/boot/rootfs/rootfs-*" ++ suffix)

  use_slots : Config → Partition → Media → List Bytes → St Kernel Media → St Kernel Media
  use_slots c p m [] rest = unmount c.data_mount >> rest
  use_slots c p m (s ∷ ss) rest = do
    hashes ← ask (λ k. glob k (slot_files c (codes ".hash")))
    attach_files ((s ∷ ss) ++ hashes) (record m { data_dev = p.dev })

  find_data_in : Config → Media → List Partition → St Kernel Media
  find_data_in c m [] = pure m
  find_data_in c m (p ∷ ps) =
      let rest = find_data_in c m ps in
      let search = (do
        mounted ← mount_data p.dev c.data_mount
        slots ← ask (λ k. glob k (slot_files c (codes ".erofs")))
        if mounted then use_slots c p m slots rest else rest) in
      if is_optical p then rest else search

  -- FindData
  unfoldable pub find_data : Config → Media → St Kernel Media
  unfolding find_data_in use_slots attach_files is_image
  find_data c m = do
    ps ← ask partitions
    if is_empty m.data_dev then find_data_in c m ps else pure m

  abbrev iso_data_path : Config → Bytes
  iso_data_path c = c.iso_mount ++ codes "/live/rootfs.erofs"

  abbrev iso_hash_path : Config → Bytes
  iso_hash_path c = c.iso_mount ++ codes "/live/rootfs.hash"

  -- The second loop device of the medium; without it the first is let go.
  attach_hash :
      Config → Partition → Media → Bytes → Option Bytes → St Kernel Media → St Kernel Media
  attach_hash c p m dl (some hl) rest =
      pure (record m { iso_dev = p.dev; iso_data = dl; iso_hash = hl })
  attach_hash c p m dl none rest = detach_loop dl >> (unmount c.iso_mount >> rest)

  attach_iso : Config → Partition → Media → Option Bytes → St Kernel Media → St Kernel Media
  attach_iso c p m none rest = unmount c.iso_mount >> rest
  attach_iso c p m (some dl) rest = do
    hl ← attach_loop (iso_hash_path c)
    attach_hash c p m dl hl rest

  use_iso : Config → Partition → Media → Bool → St Kernel Media → St Kernel Media
  use_iso c p m false rest = unmount c.iso_mount >> rest
  use_iso c p m true rest = do dl ← attach_loop (iso_data_path c); attach_iso c p m dl rest

  find_iso_in : Config → Media → List Partition → St Kernel Media
  find_iso_in c m [] = pure m
  find_iso_in c m (p ∷ ps) =
      let rest = find_iso_in c m ps in
      let search = (do
        mounted ← mount_iso p.dev c.iso_mount
        found ← ask (λ k. exists_at k (iso_data_path c) && exists_at k (iso_hash_path c))
        if mounted then use_iso c p m found rest else rest) in
      if is_optical p then search else rest

  -- FindISO
  unfoldable pub find_iso : Config → Media → St Kernel Media
  unfolding find_iso_in use_iso attach_iso attach_hash
  find_iso c m = do
    ps ← ask partitions
    if c.portable || not (is_empty m.iso_dev) then pure m else find_iso_in c m ps

  detach_all : List Bytes → St Kernel (Unit {0})
  detach_all [] = pure tt
  detach_all (l ∷ ls) = detach_loop l >> detach_all ls

  -- ReleaseUnrelatedData: the media, and whether the data partition is still held; `none` is the error.
  unfoldable pub release_unrelated_data : Config → Media → Root → St Kernel (Media × Option Bool)
  unfolding detach_all
  release_unrelated_data cfg m root =
      let c = with_defaults cfg in
      let release = (do
        detach_all (m.slot_datas ++ m.slot_hashes)
        gone ← unmount c.data_mount
        pure (
            if gone
            then (record m { data_dev = []; slot_datas = []; slot_hashes = [] }, some false)
            else (m, none))) in
      if is_empty m.data_dev
      then pure (m, some false)
      else (if root.from_slot then pure (m, some true) else (do
        keep ← ask (λ k. c.portable && exists_at k (c.data_mount ++ codes "/.atom-var"))
        if keep then pure (m, some true) else release))
