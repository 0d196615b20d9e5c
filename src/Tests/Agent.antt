-- ===== src/Tests/Agent.antt =====
-- The update agent.
use atom_loops.Prelude.{
  ◌≡◌, refl, ◌≤◌, true, Option, none, some, List, [], ◌∷◌, length, if◌then◌else◌,
}
use atom_loops.Prelude.Text.{Bytes, codes, ◌=b◌}
use atom_loops.Prelude.Int.{pos}
use atom_loops.Prelude.Hex.{encode_hex}
use atom_loops.Prelude.Numerals.{atoi}
use atom_loops.System.Files.{join, ◌=p◌}
use atom_loops.System.Io.{World, Io, fresh, attempt, ◌>>=◌}
use atom_loops.Trust.{ok, verify, verify_cert}
use atom_loops.Otad.Manifest.{Manifest, parse_manifest, firmware_bundle_list}
use atom_loops.Otad.Outside.{Outside}
use atom_loops.Otad.Trusted.{certified, parsed_manifest}
use atom_loops.Agent.Status.{Status, StatusJson, zero_status, client_status}
use atom_loops.Agent.Store.{
  StatusStore, get_for_client, current_locked, advertise_locked, claim_download, started,
}
use atom_loops.Agent.Consent.{Label, quiet, puts_up, accepts, AllowedRun}
use atom_loops.Agent.Server.{System, Step, Run, asks, downloads_start, idles, follows}
use atom_loops.Agent.Server.Refines.{view, server_refines}
use atom_loops.Agent.Server.Race.{new_server, two_downloads}
use atom_loops.Agent.Feed.{
  Client, check, checked_status, newer, feed_version_num, verified_manifest, trim_slashes,
}
use atom_loops.Agent.Feed.Offer.{IsOffer, check-IsOffer}
use atom_loops.Agent.History.{HistoryEntry, last_is, recorded_entries, history_limit}
use atom_loops.Agent.History.Bounded.{recorded_entries_lem}
use atom_loops.Agent.Requests.{AgentConfig, granted, stage_checked}
use atom_loops.Deployment.State.{Deployment}
use atom_loops.Deployment.Transition.{new}
use atom_loops.Deployment.Wal.{Json}
use atom_loops.Otad.Stage.{StageReport, stage_expected_manifest}
use atom_loops.Tests.Update.{update, key_bytes, sig_bytes, good_scheme, one_text}
use atom_loops.Tests.Network.{outside}

abbrev hash : Bytes → Bytes
hash b = codes "h"

abbrev offer : Status
offer = record zero_status {
  state = codes "available";
  latest = codes "rel2";
  manifest_sha256 = codes "aa";
}

abbrev token : Bytes
token = codes "68"

abbrev loading : System
loading = record {
  store = record { live = started offer; advertised = zero_status };
  checked = [];
  downloads = offer ∷ [];
}

-- A client asks for the status and starts the download.
the_accepts : Run hash new_server (accepts token ∷ puts_up (codes "aa") ∷ []) loading
unfolding get_for_client current_locked advertise_locked claim_download client_status encode_hex
    started
the_accepts = follows (follows idles (asks (some offer))) (downloads_start none token refl)

server_refines_example :
    AllowedRun hash (view new_server) (accepts token ∷ puts_up (codes "aa") ∷ []) (view loading)
server_refines_example =
    server_refines hash {s = new_server} {ls = accepts token ∷ puts_up (codes "aa") ∷ []}
      {t = loading} the_accepts

two_downloads_example :
    (ls : List Label) × (t : System) × (u : System) × Run hash new_server ls t
    × Step hash t quiet u
    × (t.downloads ≡ offer ∷ offer ∷ [])
    × (u.downloads ≡ offer ∷ [])
    × (u.store.live ≡ zero_status)
unfolding encode_hex
two_downloads_example = two_downloads hash offer refl refl refl

abbrev the_digest_text : Bytes
the_digest_text = codes "3031323334353637383961626364656630313233343536373839616263646566"

-- A hash by which one manifest is known.
abbrev marked : Bytes → Bytes
marked b = if b =b sig_bytes then key_bytes else 2 ∷ []

-- A release with a hash tree and a signature for its kernel image, and no firmware.
abbrev whole : Manifest
whole = record update {
  rootfs_hash = the_digest_text;
  rootfs_hash_tree_url = codes "https://h/r.hash";
  rootfs_hash_tree_hash = the_digest_text;
  rootfs_url = codes "https://h/r.erofs";
  rootfs_verity_hash = codes "aa";
  kernelcache_url = codes "https://h/k.efi";
  kernelcache_hash = the_digest_text;
  kernelcache_sig_url = codes "https://h/k.efi.sig";
  kernelcache_sig_hash = the_digest_text;
  firmware_bundles = [];
}

abbrev old_log : Deployment
old_log = new (codes "now") (codes "device") (codes "rel1")

abbrev old_json : Json
old_json = record { encode = λ d. some (codes "log"); decode = λ b. some old_log }

abbrev pub world_outside : Outside
world_outside = record outside {
  sha256 = marked;
  json = old_json;
  decoder = record one_text { decode = λ b. some whole };
}

abbrev pub client : Client
client = record {
  respond = λ n url. some (record { status = 200; body = sig_bytes; complete = true });
  versions_of_json = λ b. none;
  text_of = λ e. [];
}

abbrev feed : Bytes
feed = codes "https://h/stable/"

abbrev found : Status
found = record zero_status {
  state = codes "available";
  current = codes "rel1";
  latest = codes "rel2";
  manifest_sha256 = the_digest_text;
}

abbrev empty_world : World
empty_world = record { files = λ p. none; next = 0; faults = [] }

the_check : newer (codes "rel2") (codes "rel1") ≡ true
unfolding newer feed_version_num atoi
the_check = refl

the_cert : verify_cert good_scheme sig_bytes sig_bytes key_bytes 0 ≡ ok (key_bytes, pos 2)
unfolding verify_cert verify
the_cert = refl

the_signature : verify good_scheme sig_bytes sig_bytes key_bytes ≡ true
unfolding verify
the_signature = refl

the_parse : parse_manifest world_outside.decoder sig_bytes ≡ some whole
unfolding parse_manifest firmware_bundle_list
the_parse = refl

the_digest : the_digest_text ≡ encode_hex (marked sig_bytes)
unfolding encode_hex
the_digest = refl

abbrev the_offer : IsOffer world_outside key_bytes found
the_offer = record {
  manifest = whole;
  verified = record {
    text = sig_bytes;
    sig = sig_bytes;
    cert = sig_bytes;
    cert_sig = sig_bytes;
    key = key_bytes;
    version = pos 2;
    vouched = the_cert;
    signed = the_signature;
    parsed = the_parse;
    digest = the_digest;
  };
  latest = refl;
  is_newer = the_check;
}

check-IsOffer_example : IsOffer world_outside key_bytes found
unfolding check checked_status newer feed_version_num verified_manifest trim_slashes certified
    parsed_manifest attempt ◌>>=◌ fresh verify verify_cert parse_manifest firmware_bundle_list
    encode_hex atoi
check-IsOffer_example =
    (check-IsOffer world_outside client key_bytes feed (codes "rel1") none).at empty_world found
      refl refl

abbrev pub settings : AgentConfig
settings = record {
  feed = feed;
  current = codes "rel1";
  state = none;
  wal = join (codes "/boot/rootfs") (codes "deployment.json");
  dirs = record { rootfs_dir = codes "/r"; esp = []; firmware_dir = [] };
  stage_lock = some (join (codes "/run") (codes "lock"));
  root_pub = key_bytes;
  pid = codes "1";
}

abbrev pub status_json : StatusJson
status_json = record { encode = λ s. []; decode = λ b. none }

abbrev pub offering : StatusStore
offering = record { live = zero_status; advertised = found }

abbrev log_world : World
log_world = record {
  files =
      λ p. if p =p settings.wal then some (record { inode = 0; content = codes "log" }) else none;
  next = 1;
  faults = [];
}

abbrev staging : Io (Option StageReport)
staging = stage_checked world_outside client status_json settings granted (the_digest_text)

abbrev the_report : StageReport
the_report = record { version = codes "rel2"; bundles = [] }

abbrev stage_alone : Io StageReport
stage_alone =
    stage_expected_manifest world_outside settings.wal settings.dirs
      (codes "https://h/stable/manifest.json") [] key_bytes the_digest_text

abbrev entry : HistoryEntry
entry = record { version = codes "rel2"; build = codes "7"; time = pos 5; success = true }

recorded_entries_lem_example :
    (length (recorded_entries entry (entry ∷ [])) ≤ history_limit)
    × (last_is (codes "rel2") (codes "7") (recorded_entries entry (entry ∷ [])) ≡ true)
recorded_entries_lem_example = recorded_entries_lem entry (entry ∷ [])
