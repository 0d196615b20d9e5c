-- ===== src/Tests/Early.antt =====
-- The firmware of the early boot, and the report on a failed one.
use atom_loops.Prelude.{
  ◌≡◌, refl, ℕ, ◌&&◌, ◌||◌, ◌++◌, true, Option, none, some, [], ◌∷◌, ltb, if◌then◌else◌,
}
use atom_loops.Prelude.Text.{Bytes, codes, ◌=b◌}
use atom_loops.Prelude.Assoc.{lookup, insert}
use atom_loops.Prelude.Numerals.{parse_uint}
use atom_loops.System.Files.{FilePath, File, join}
use atom_loops.Otad.Manifest.{Decoder, FirmwareBundleSpec}
use atom_loops.Boot.Firmware.{
  FwOps, MountedBundle, Mounted, parse_overlay, is_clean, place_overlay, overlay_wanted,
  collect_bundles,
}
use atom_loops.Boot.Firmware.Overlay.{kept_for, version_of, place_overlay-kept}
use atom_loops.Boot.Firmware.Kept.{Collected, IsAnchored, collect_bundles-IsAnchored}
use atom_loops.Diag.{Bundle, Encoders, compact_within}
use atom_loops.Diag.Within.{EndsWith, compact_within-ends}
use atom_loops.Tests.Update.{update, gpu_bundle, one_text, good_scheme, key_bytes, sig_bytes}

-- A kernel on which every call works, with a directory for one bundle.
abbrev file_of : FilePath → Option File
file_of (join d n) =
    if n =b codes ".overlay" || n =b codes ".overlay-version" || n =b codes ".kernel-abi"
    then none
    else some (record { inode = 1; content = sig_bytes })
file_of p = none

abbrev easy : FwOps
easy = record {
  Kernel = Unit {0};
  disk = λ k. record { files = file_of; next = 0; faults = [] };
  dir_names = λ k p. codes "nvidia" ∷ [];
  exists = λ k p. true;
  is_dir = λ k p. true;
  running = λ k. codes "6.6.9";
  attach_loop = λ p k. (some p, k);
  detach_loop = λ p k. (tt, k);
  open_verity = λ m d h r k. (some m, k);
  close_verity = λ m k. (tt, k);
  has_erofs = λ k d. true;
  mount = λ s d t o k. (true, k);
  bind = λ s d k. (true, k);
  unmount = λ p k. (tt, k);
}

abbrev driver : FirmwareBundleSpec
driver = record gpu_bundle {
  verity_hash = key_bytes ++ key_bytes;
  hash_tree_url = codes "tree";
  hash_tree_hash = codes "bb";
}

abbrev with_driver : Decoder
with_driver = record one_text {
  decode = λ b. some (record update { firmware_bundles = driver ∷ [] });
}

collect_bundles-IsAnchored_example :
    Collected easy
      (IsAnchored easy good_scheme with_driver 0 key_bytes (codes "/sysroot/boot/firmware"))
      (collect_bundles easy good_scheme with_driver 0 key_bytes
        (codes "/sysroot/boot/firmware")
        tt).0
collect_bundles-IsAnchored_example =
    collect_bundles-IsAnchored easy good_scheme with_driver 0 key_bytes
      (codes "/sysroot/boot/firmware") tt

abbrev overlay_text : Bytes
overlay_text = codes "target=/usr/lib/gl" ++ 10 ∷ codes "version=7"

abbrev bundle : MountedBundle
bundle = record {
  name = codes "gl";
  mapper = codes "gl-fwverity";
  loops = [];
  mnt = codes "/sysroot/var/.fw-gl";
  target = [];
  version = 0;
}

abbrev nothing : Mounted
nothing = record { firmware = []; overlays = [] }

overlay_parsed : parse_overlay overlay_text ≡ some (codes "/usr/lib/gl", 7)
unfolding parse_overlay is_clean parse_uint
overlay_parsed = refl

-- A bundle of the same version is kept already.
abbrev before : MountedBundle
before = record bundle { name = codes "old"; target = codes "/usr/lib/gl"; version = 7 }

abbrev with_before : Mounted
with_before = record { firmware = []; overlays = (codes "/usr/lib/gl", before) ∷ [] }

place_overlay-kept_example :
    kept_for
      (codes "/usr/lib/gl")
      (place_overlay easy bundle with_before (parse_overlay overlay_text) tt).0
    ≡ (if overlay_wanted easy tt (codes "/usr/lib/gl") 7
          && (codes "/usr/lib/gl" =b codes "/usr/lib/gl")
          && ltb (version_of (kept_for (codes "/usr/lib/gl") with_before)) 7
        then some (record bundle { target = codes "/usr/lib/gl"; version = 7 })
        else kept_for (codes "/usr/lib/gl") with_before)
place_overlay-kept_example =
    place_overlay-kept easy bundle with_before tt overlay_text (codes "/usr/lib/gl") 7
      (codes "/usr/lib/gl") overlay_parsed

-- Where none is kept it is kept; of two bundles of one version the first stays.
overlay_kept :
    kept_for
      (codes "/usr/lib/gl")
      (place_overlay easy bundle nothing (parse_overlay overlay_text) tt).0
    ≡ some (record bundle { target = codes "/usr/lib/gl"; version = 7 })
unfolding place_overlay parse_overlay is_clean parse_uint overlay_wanted lookup insert
overlay_kept = refl

first_kept :
    kept_for
      (codes "/usr/lib/gl")
      (place_overlay easy bundle with_before (parse_overlay overlay_text) tt).0
    ≡ some before
unfolding place_overlay parse_overlay is_clean parse_uint overlay_wanted lookup insert
first_kept = refl

abbrev encoders : Encoders
encoders = record { sha256 = λ b. key_bytes; gzip = λ b. b; base64url = λ b. b }

abbrev failure : Bundle
failure = record {
  stage = codes "boot";
  error = codes "no root";
  when = codes "now";
  sections = record { label = codes "dmesg"; content = codes "a" ++ 10 ∷ codes "b" } ∷ [];
}

compact_within-ends_example :
    (r : Bytes × Bytes × ℕ) × (n : ℕ) × (compact_within encoders failure 90 ≡ some r)
    × EndsWith encoders failure 90 40 n r
compact_within-ends_example = compact_within-ends encoders failure 90
