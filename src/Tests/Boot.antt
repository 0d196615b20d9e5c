-- ===== src/Tests/Boot.antt =====
-- A locked boot from one slot file.
use atom_loops.Prelude.{
  ℕ, zero, suc, ◌≡◌, refl, true, false, none, some, [], ◌∷◌, arith, if◌then◌else◌,
}
use atom_loops.Prelude.Text.{Bytes, codes, ◌=b◌}
use atom_loops.Boot.Verity.{valid_root_hash, parse_verity_superblock}
use atom_loops.Boot.Verity.Laws.{layout, parse_verity_superblock-layout}
use atom_loops.Boot.Kernel.{Ops}
use atom_loops.Boot.Media.{
  Config, Media, Root, with_defaults, root_mapper, find_iso, find_data, is_optical,
}
use atom_loops.Boot.Ranking.{sort_ranked, insert_first}
use atom_loops.Boot.Root.{select_root, select_verified, rank_pairs, same_pair_origin}
use atom_loops.Boot.Root.Locked.{Selected, select_root-Selected}

abbrev hex : Bytes
hex = codes "0123456789abcdef0123456789abcdef0123456789abcdef0123456789abcdef"

-- A machine with one data partition that holds one slot; a loop device is named after its file, a
-- mapping after its name.
abbrev machine : Ops
machine = record {
  Kernel = ℕ;
  partitions = λ k.
      (record { dev = codes "/dev/sda1"; disk = codes "sda"; part_name = codes "data"; label = [] })
      ∷ [];
  mount_data = λ dev at k. (true, k);
  unmount = λ at k. (true, k);
  glob = λ k pattern.
      if pattern =b (codes "/sysdata/boot/rootfs/rootfs-*.erofs")
      then codes "a.erofs" ∷ []
      else codes "a.hash" ∷ [];
  exists_at = λ k p. false;
  attach_loop = λ f k. (some f, k);
  detach_loop = λ l k. (true, k);
  open_verity = λ name d h root k. (some name, 1);
  close_verity = λ name k. (true, 0);
  has_erofs = λ k dev. true;
  is_verity_hash = λ k dev. false;
  hash_root = none;
  dev_bytes = none;
  mount_iso = λ dev at k. (false, k);
  disk_of = λ k dev. codes "sda";
  sleep = λ ms k. (tt, k);
}

abbrev locked : Config
locked = record {
  root_hash = hex;
  live = false;
  portable = false;
  portable_root = [];
  portable_hash = [];
  unlocked = false;
  data_mount = [];
  iso_mount = [];
  attempts = 1;
  interval = 0;
}

abbrev no_media : Media
no_media = record {
  data_dev = [];
  slot_datas = [];
  slot_hashes = [];
  iso_dev = [];
  iso_data = [];
  iso_hash = [];
}

abbrev slot_root : Root
slot_root = record {
  source = root_mapper;
  image = codes "a.erofs";
  hash = codes "a.hash";
  mapper = root_mapper;
  optical = false;
  from_slot = true;
}

select_root-Selected_example :
    (valid_root_hash hex ≡ true)
    × Selected machine locked
        (select_root machine locked no_media 0).0.0
        slot_root
        (select_root machine locked no_media 0).1
unfolding select_root valid_root_hash with_defaults select_verified rank_pairs sort_ranked find_iso
    find_data is_optical same_pair_origin insert_first
select_root-Selected_example = select_root-Selected machine locked no_media 0 slot_root refl refl

abbrev many : ℕ → Bytes
many zero = []
many (suc n) = 7 ∷ many n

parse_verity_superblock-layout_example :
    parse_verity_superblock (layout 123456789 4096 4096 7 (1 ∷ 2 ∷ []) (many 512))
    ≡ some (record {
      version = 1;
      hash_type = 1;
      algorithm = codes "sha256";
      data_block_size = 4096;
      hash_block_size = 4096;
      data_blocks = 7;
      salt = 1 ∷ 2 ∷ [];
    })
parse_verity_superblock-layout_example =
    parse_verity_superblock-layout 123456789 4096 4096 7 (1 ∷ 2 ∷ []) (many 512) refl refl
      (omega arith) (omega arith) (omega arith) (omega arith)
