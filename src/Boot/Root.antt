-- ===== src/Boot/Root.antt =====
-- boot/root.go: the choice of the root image that the signed root hash names.
pub mod Locked
use atom_loops.Prelude.{
  ℕ, zero, suc, ◌+◌, Bool, true, false, not, ◌&&◌, ◌||◌, Option, none, some, List, [], ◌∷◌, ◌++◌,
  ltb, ◌==◌, if◌then◌else◌,
}
use atom_loops.Prelude.Text.{Bytes, codes, is_empty, ◌=b◌, mem_bytes}
use atom_loops.Boot.Verity.{valid_root_hash}
use atom_loops.Prelude.Hex.{to_lower}
use atom_loops.Boot.Kernel.{Partition, St, Ops, ◌>>=◌, ◌>>◌, pure, ask}
use atom_loops.Boot.Ranking.{sort_ranked, pairs_of}
use atom_loops.Boot.Media.{
  Config, Media, Root, with_defaults, root_mapper, raw_root, is_optical, portable_part, find_data,
  find_iso,
}

abbrev eq_bool : Bool → Bool → Bool
eq_bool true b = b
eq_bool false b = not b

module _ (ops : Ops) where
  open ops use {
    Kernel, partitions, open_verity, close_verity, has_erofs, is_verity_hash, hash_root, dev_bytes,
    disk_of, sleep,
  }

  -- The score of a pair in rankPairs, from what the hash device names and the size that it wants.
  score : Kernel → Config → Bytes × ℕ → Bytes → ℕ
  score k c (root, want) d =
      let base =
        (if is_empty root then 1 else (if to_lower root =b to_lower c.root_hash then 3 else 0)) in
      let fits : Bool = elim dev_bytes [ none ↦ false | some size ↦ size k d == want ] in
      if ltb 0 base && ltb 0 want && fits then base + 1 else base

  named_root : Kernel → Bytes → Bytes × ℕ
  named_root k h = elim hash_root [ none ↦ ([], 0) | some f ↦ f k h ]

  with_hash : Kernel → Config → Bytes → List Bytes → List ((Bytes × Bytes) × ℕ)
  with_hash k c h [] = []
  with_hash k c h (d ∷ ds) = ((d, h), score k c (named_root k h) d) ∷ with_hash k c h ds

  all_pairs : Kernel → Config → List Bytes → List Bytes → List ((Bytes × Bytes) × ℕ)
  all_pairs k c ds [] = []
  all_pairs k c ds (h ∷ hs) = with_hash k c h ds ++ all_pairs k c ds hs

  -- rankPairs
  unfoldable pub rank_pairs : Kernel → Config → List Bytes → List Bytes → List (Bytes × Bytes)
  unfolding all_pairs with_hash score named_root
  rank_pairs k c datas hashes = pairs_of (sort_ranked (all_pairs k c datas hashes))

  -- samePairOrigin
  unfoldable pub same_pair_origin : Kernel → Media → Bytes → Bytes → Bool
  same_pair_origin k m d h =
      let iso_data = not (is_empty m.iso_data) && d =b m.iso_data in
      let iso_hash = not (is_empty m.iso_hash) && h =b m.iso_hash in
      let same_slot = eq_bool (mem_bytes d m.slot_datas) (mem_bytes h m.slot_hashes) in
      if not same_slot
      then false
      else (if not (eq_bool iso_data iso_hash)
          then false
          else (if not (mem_bytes d m.slot_datas) && not iso_data
              then disk_of k d =b disk_of k h
              else true))

  -- The devices of a live boot: data images and hash trees.
  live_devices : Kernel → Config → List Partition → List Bytes × List Bytes
  live_devices k c [] = ([], [])
  live_devices k c (p ∷ ps) =
      let (ds, hs) = live_devices k c ps in
      if is_optical p && is_empty p.part_name
      then (ds, hs)
      else (if not (portable_part c p (c.portable_root ∷ c.portable_hash ∷ []))
          then (ds, hs)
          else (if is_verity_hash k p.dev
              then (ds, p.dev ∷ hs)
              else (if has_erofs k p.dev then (p.dev ∷ ds, hs) else (ds, hs))))

  candidates : Kernel → Config → Media → List Bytes × List Bytes
  candidates k c m =
      let (ds, hs) = live_devices k c (partitions k) in
      if not c.live
      then (m.slot_datas, m.slot_hashes)
      else (if not c.portable && not (is_empty m.iso_data)
          then (ds ++ m.iso_data ∷ [], hs ++ m.iso_hash ∷ [])
          else (ds, hs))

  abbrev verified_root : Bytes → Bytes → Bytes → Root
  verified_root node d h = record {
    source = node;
    image = d;
    hash = h;
    mapper = root_mapper;
    optical = false;
    from_slot = false;
  }

  -- What follows the mapping of one pair.
  confirm : Bytes → Bytes → Option Bytes → St Kernel (Option Root) → St Kernel (Option Root)
  confirm d h none rest = rest
  confirm d h (some node) rest = do
    mounted ← ask (λ k. has_erofs k node)
    if mounted then pure (some (verified_root node d h)) else close_verity root_mapper >> rest

  try_pairs : Config → Media → List (Bytes × Bytes) → St Kernel (Option Root)
  try_pairs c m [] = pure none
  try_pairs c m ((d, h) ∷ ps) =
      let rest = try_pairs c m ps in
      let map_pair = (do
        close_verity root_mapper
        node ← open_verity root_mapper d h c.root_hash
        confirm d h node rest) in
      λ k. (if same_pair_origin k m d h then map_pair else rest) k

  unfoldable pub select_verified : Config → Media → St Kernel (Option Root)
  unfolding try_pairs confirm candidates live_devices
  select_verified c m k = let (ds, hs) = candidates k c m in try_pairs c m (rank_pairs k c ds hs) k

  -- What follows the probe of one pair on an unlocked device: the mapping is closed again.
  probed : Bytes → St Kernel (Option Root) → Option Bytes → St Kernel (Option Root)
  probed d rest none = rest
  probed d rest (some node) = do
    found ← ask (λ k. has_erofs k node)
    close_verity (codes "vroot-select")
    if found then pure (some (raw_root d)) else rest

  -- The inner loops of selectUnlocked: the slot that the signed hash selects.
  probe_hashes : Config → Bytes → List Bytes → St Kernel (Option Root) → St Kernel (Option Root)
  probe_hashes c d [] rest = rest
  probe_hashes c d (h ∷ hs) rest = do
    close_verity (codes "vroot-select")
    node ← open_verity (codes "vroot-select") d h c.root_hash
    probed d (probe_hashes c d hs rest) node

  probe_slots : Config → List Bytes → List Bytes → St Kernel (Option Root)
  probe_slots c [] hs = pure none
  probe_slots c (d ∷ ds) hs = probe_hashes c d hs (probe_slots c ds hs)

  first_image : Kernel → List Bytes → Option Root
  first_image k [] = none
  first_image k (d ∷ ds) =
      let rest = first_image k ds in if has_erofs k d then some (raw_root d) else rest

  portable_devs : Config → List Partition → List Bytes
  portable_devs c [] = []
  portable_devs c (p ∷ ps) =
      let rest = portable_devs c ps in
      if portable_part c p (c.portable_root ∷ []) then p.dev ∷ rest else rest

  raw_candidates : Kernel → Config → Media → List Bytes
  raw_candidates k c m =
      let devs = portable_devs c (partitions k) in
      if not c.live
      then m.slot_datas
      else (if not (is_empty m.iso_data) then m.iso_data ∷ devs else devs)

  or_raw : Config → Media → Option Root → St Kernel (Option Root)
  or_raw c m (some r) = pure (some r)
  or_raw c m none = ask (λ k. first_image k (raw_candidates k c m))

  unfoldable pub select_unlocked : Config → Media → St Kernel (Option Root)
  unfolding probe_slots probe_hashes probed or_raw first_image raw_candidates portable_devs
  select_unlocked c m = do
    slot ← if c.live then pure none else probe_slots c m.slot_datas m.slot_hashes
    or_raw c m slot

  settle_root : Media → Root → Root
  settle_root m r = record r {
    optical = not (is_empty m.iso_data) && r.image =b m.iso_data;
    from_slot = mem_bytes r.image m.slot_datas;
  }

  finish : Media → Option Root → St Kernel (Media × Option Root) → St Kernel (Media × Option Root)
  finish m none again = again
  finish m (some r) again = pure (m, some (settle_root m r))

  -- The loop of SelectRoot; `none` where the attempts run out.
  attempt_root : Config → ℕ → Media → St Kernel (Media × Option Root)
  attempt_root c zero m = pure (m, none)
  attempt_root c (suc n) m = do
    m₁ ← find_data ops c m
    m₂ ← find_iso ops c m₁
    root ← if c.unlocked then select_unlocked c m₂ else select_verified c m₂
    finish m₂ root (sleep c.interval >> attempt_root c n m₂)

  -- SelectRoot: the media and the root; `none` stands for its two errors.
  unfoldable pub select_root : Config → Media → St Kernel (Media × Option Root)
  unfolding attempt_root finish settle_root
  select_root cfg m =
      let c = with_defaults cfg in
      if not (valid_root_hash c.root_hash) then pure (m, none) else attempt_root c c.attempts m
