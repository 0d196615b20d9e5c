-- ===== src/Tests/Network.antt =====
-- Downloads, and the manifest and the bundles behind their signatures.
use atom_loops.Prelude.{
  ◌≡◌, refl, Bool, ℕ, true, false, Option, none, some, [], ◌∷◌, arith, if◌then◌else◌,
}
use atom_loops.Prelude.Text.{Bytes, codes, ◌=b◌}
use atom_loops.System.Files.{FilePath, join, File}
use atom_loops.System.Io.{
  World, fresh, call, settle, attempt, create, write, rename, remove, read_file, ◌>>=◌,
}
use atom_loops.System.Triple.{Triple}
use atom_loops.Trust.{verify, verify_cert, check_revocation}
use atom_loops.Otad.Manifest.{FirmwareBundleSpec, Decoder, parse_manifest, firmware_bundle_list}
use atom_loops.Otad.Fetch.{Url, Response, Network, get, fetch_to}
use atom_loops.Otad.Fetch.Redirects.{get-https}
use atom_loops.Otad.Outside.{Outside}
use atom_loops.Otad.Slots.{StageDirs, sync_dir}
use atom_loops.Otad.Trusted.{VerifiedManifest, fetch_verified_manifest}
use atom_loops.Otad.Trusted.Chain.{IsTrusted, fetch_verified_manifest-IsTrusted}
use atom_loops.Otad.Stage.{fetch_release}
use atom_loops.Otad.Stage.Artifacts.{fetch_release-Keeps}
use atom_loops.Tests.Update.{update, gpu_bundle, one_text, good_scheme, key_bytes, sig_bytes}

abbrev reply : Response
reply = record { status = 200; location = none; body = sig_bytes; complete = true }

-- A server that sends `start` on to `next`, and what it says without TLS.
abbrev scheme : Bytes → Option Bytes
scheme u = if u =b codes "plain" then some (codes "http") else some (codes "https")

abbrev by_tls : Bytes → Option Response
by_tls u =
    if u =b codes "start"
    then some (record reply {
      status = 302;
      location = some (record { scheme = codes "https"; text = codes "next" });
    })
    else some reply

abbrev answer : Option Response → ℕ → Bytes → Option Response
answer plain n u = if u =b codes "plain" then plain else by_tls u

abbrev tapped : Network
tapped = record { scheme_of = scheme; respond = answer (some reply) }

abbrev pub untapped : Network
untapped = record { scheme_of = scheme; respond = answer none }

abbrev empty_disk : World
empty_disk = record { files = λ p. none; next = 0; faults = [] }

alike :
    (n : ℕ) (u : Bytes)
    → scheme u ≡ some (codes "https")
    → answer (some reply) n u ≡ answer none n u
alike n u = go (u =b codes "plain")
  where
    go :
        (b : Bool)
        → (if b then some (codes "http") else some (codes "https")) ≡ some (codes "https")
        → (if b then some reply else by_tls u) ≡ (if b then none else by_tls u)
    go true h = cc
    go false h = refl

located :
    (n : ℕ) (u : Bytes) (r : Response) (l : Url)
    → answer (some reply) n u ≡ some r
    → r.location ≡ some l
    → scheme l.text ≡ some l.scheme
located n u r l = go (u =b codes "plain") (u =b codes "start")
  where
    go :
        (b c : Bool)
        → (if b
            then some reply
            else (if c
                then some (record reply {
                  status = 302;
                  location = some (record { scheme = codes "https"; text = codes "next" });
                })
                else some reply))
          ≡ some r
        → r.location ≡ some l
        → scheme l.text ≡ some l.scheme
    go true c h k = ground arith
    go false true h k = ground arith
    go false false h k = ground arith

get-https_example : get tapped (codes "start") empty_disk ≡ get untapped (codes "start") empty_disk
get-https_example =
    get-https tapped untapped (λ u. refl) alike located (codes "start") empty_disk refl

abbrev pub outside : Outside
outside = record {
  net = untapped;
  crypto = good_scheme;
  decoder = one_text;
  json = record { encode = λ d. none; decode = λ b. none };
  sha256 = λ b. key_bytes;
  now = 0;
  timestamp = codes "now";
  cmdline = none;
  pci = [];
  kernel = codes "6.6.9";
}

abbrev the_manifest : VerifiedManifest
the_manifest = record {
  manifest = update;
  text = sig_bytes;
  sig = sig_bytes;
  cert = sig_bytes;
  cert_sig = sig_bytes;
}

abbrev list_url : Bytes
list_url = codes "list"

fetch_verified_manifest-IsTrusted_example : IsTrusted outside key_bytes list_url [] the_manifest
unfolding fetch_verified_manifest fetch_to get attempt ◌>>=◌ read_file call fresh settle create
    write rename remove sync_dir verify verify_cert check_revocation parse_manifest
    firmware_bundle_list
fetch_verified_manifest-IsTrusted_example =
    (fetch_verified_manifest-IsTrusted outside key_bytes list_url [] 0
        (codes "https://h/manifest.json")).at
      empty_disk the_manifest refl

abbrev dirs : StageDirs
dirs = record {
  rootfs_dir = codes "/boot/rootfs";
  esp = codes "/efi";
  firmware_dir = codes "/boot/firmware";
}

abbrev log_path : FilePath
log_path = join (codes "/sysdata/boot") (codes "deployment.json")

abbrev log_file : File
log_file = record { inode = 3; content = codes "log" }

-- The log is none of the files that a download touches.
fetch_release-Keeps_example :
    Triple
      (λ f. f log_path ≡ some log_file)
      (fetch_release outside log_path dirs the_manifest)
      (λ f. f log_path ≡ some log_file)
      (λ _ f. f log_path ≡ some log_file)
fetch_release-Keeps_example =
    fetch_release-Keeps outside log_path dirs (codes "/sysdata/boot") (codes "deployment.json")
      (some log_file) refl the_manifest

abbrev driver : FirmwareBundleSpec
driver = record gpu_bundle {
  verity_hash = codes "aa";
  hash_tree_url = codes "tree";
  hash_tree_hash = codes "bb";
}

abbrev with_driver : Decoder
with_driver = record one_text {
  decode = λ b. some (record update { firmware_bundles = driver ∷ [] });
}
