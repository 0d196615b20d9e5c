-- ===== src/Otad/Manifest/Valid.antt =====
-- What staging may rely on in a manifest that was accepted.
use atom_loops.Prelude.{
  Bool, true, false, not, ◌≡◌, refl, ap, Option, none, some, List, [], ◌∷◌, arith, all,
}
use atom_loops.Prelude.Text.{Bytes, is_empty, ◌=b◌, =b_iff, =b_refl, mem_bytes}
use atom_loops.Otad.Manifest.{
  FirmwareBundleSpec, Manifest, Decoder, firmware_bundle_list, parse_manifest, bundles_are_good,
  bundle_is_bad, checked, core_is_bad,
}

-- A bundle can be fetched, checked, and mounted under verity where it asks for it.
pub record IsComplete (fw : FirmwareBundleSpec) : Type 0 where
  pub name : is_empty fw.name ≡ false
  pub url : is_empty fw.url ≡ false
  pub hash : is_empty fw.hash ≡ false
  pub tree :
      is_empty fw.verity_hash ≡ false
      → (is_empty fw.hash_tree_url ≡ false) × (is_empty fw.hash_tree_hash ≡ false)

-- Every bundle is complete, and no two have one name.
abbrev pub AllComplete : List FirmwareBundleSpec → Type 0
AllComplete [] = Unit
AllComplete (fw ∷ fws) = IsComplete fw × AllComplete fws

abbrev pub is_fresh : Bytes → List FirmwareBundleSpec → Bool
is_fresh n fws = all (λ fw. not (fw.name =b n)) fws

abbrev pub AllDistinct : List FirmwareBundleSpec → Type 0
AllDistinct [] = Unit
AllDistinct (fw ∷ fws) = (is_fresh fw.name fws ≡ true) × AllDistinct fws

good-AllComplete :
    (seen : List Bytes) (fws : List FirmwareBundleSpec)
    → bundles_are_good seen fws ≡ true
    → AllComplete fws
unfolding bundles_are_good bundle_is_bad
good-AllComplete seen [] h = tt
good-AllComplete seen (fw ∷ fws) h =
    (ground arith, good-AllComplete (fw.name ∷ seen) fws (ground arith))

-- A name that was seen is not among the bundles that follow.
good-is_fresh :
    (seen : List Bytes) (fws : List FirmwareBundleSpec) (n : Bytes)
    → mem_bytes n seen ≡ true
    → bundles_are_good seen fws ≡ true
    → is_fresh n fws ≡ true
unfolding bundles_are_good bundle_is_bad
good-is_fresh seen [] n m h = refl
good-is_fresh seen (fw ∷ fws) n m h =
    ground (arith, good-is_fresh (fw.name ∷ seen) fws n, =b_iff fw.name n)

good-AllDistinct :
    (seen : List Bytes) (fws : List FirmwareBundleSpec)
    → bundles_are_good seen fws ≡ true
    → AllDistinct fws
unfolding bundles_are_good bundle_is_bad
good-AllDistinct seen [] h = tt
good-AllDistinct seen (fw ∷ fws) h = (
  good-is_fresh (fw.name ∷ seen) fws fw.name (rw (=b_refl fw.name)) (ground arith),
  good-AllDistinct (fw.name ∷ seen) fws (ground arith),
)

-- What ParseManifest accepts is what the bytes decode to, names its release and its two artifacts with
-- their hashes, and has complete firmware bundles under distinct names.
pub record IsValid (dec : Decoder) (b : Bytes) (m : Manifest) : Type 0 where
  pub decoded : dec.decode b ≡ some m
  pub version : is_empty m.version ≡ false
  pub rootfs : (is_empty m.rootfs_url ≡ false) × (is_empty m.rootfs_hash ≡ false)
  pub kernelcache : (is_empty m.kernelcache_url ≡ false) × (is_empty m.kernelcache_hash ≡ false)
  pub complete : AllComplete (firmware_bundle_list m)
  pub distinct : AllDistinct (firmware_bundle_list m)

record Passed (dec : Decoder) (b : Bytes) (m : Manifest) : Type 0 where
  decoded : dec.decode b ≡ some m
  core : core_is_bad m ≡ false
  bundles : bundles_are_good [] (firmware_bundle_list m) ≡ true

checked-Passed :
    (dec : Decoder) (b : Bytes) (o : Option Manifest) (m : Manifest)
    → dec.decode b ≡ o
    → checked dec b o ≡ some m
    → Passed dec b m
unfolding checked
checked-Passed dec b none m e h = cc
checked-Passed dec b (some n) m e h =
    ground (arith, ap core_is_bad (q n m h), ap firmware_bundle_list (q n m h), q n m h)
  where
    q : (n m : Manifest) → checked dec b (some n) ≡ some m → n ≡ m
    q n m h = ground arith

parse_manifest-Passed :
    (dec : Decoder) (b : Bytes) (m : Manifest) → parse_manifest dec b ≡ some m → Passed dec b m
unfolding parse_manifest
parse_manifest-Passed dec b m h = checked-Passed dec b (dec.decode b) m refl (ground arith)

-- A manifest that ParseManifest accepts is what the bytes decode to, names its release and its two
-- artifacts with their hashes, and has complete firmware bundles under distinct names.
pub parse_manifest-IsValid :
    (dec : Decoder) (b : Bytes) (m : Manifest) → parse_manifest dec b ≡ some m → IsValid dec b m
unfolding core_is_bad
parse_manifest-IsValid dec b m h =
    let p = parse_manifest-Passed dec b m h in
    record {
      decoded = p.decoded;
      version = ground (arith, p.core);
      rootfs = ground (arith, p.core);
      kernelcache = ground (arith, p.core);
      complete = good-AllComplete [] (firmware_bundle_list m) p.bundles;
      distinct = good-AllDistinct [] (firmware_bundle_list m) p.bundles;
    }
