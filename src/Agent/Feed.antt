-- ===== src/Agent/Feed.antt =====
-- cmd/updated/main.go: the check of the update feed. http.DefaultClient, encoding/json and the texts of
-- errors are parameters.
pub mod Versions
pub mod Offer
use mathlib.Core.List.{reverse}
use atom_loops.Prelude.{
  ℕ, Bool, true, false, not, ◌&&◌, ◌||◌, Option, none, some, List, [], ◌∷◌, ◌++◌, length, drop,
  take, leb, ◌==◌, if◌then◌else◌,
}
use atom_loops.Prelude.Text.{Bytes, codes, is_empty, cut_prefix, split, lt_bytes, ◌=b◌}
use atom_loops.Prelude.Int.{ℤ, pos, ltb_ℤ}
use atom_loops.Prelude.Numerals.{atoi}
use atom_loops.Prelude.Hex.{encode_hex}
use atom_loops.System.Files.{FilePath, join}
use atom_loops.System.Io.{
  Io, Error, errno, not_exist, message, wrapped, transient, pure, throw, fresh, attempt, label,
  read_file, ◌>>=◌, ◌>>◌,
}
use atom_loops.Trust.{verify, verify_cert}
use atom_loops.Deployment.Transition.{digits_start}
use atom_loops.Otad.Manifest.{Manifest, parse_manifest}
use atom_loops.Otad.Outside.{Outside}
use atom_loops.Otad.Trusted.{certified, parsed_manifest}
use atom_loops.Agent.Status.{Status, zero_status}

-- A response with status and what came of the body; `complete` tells that the transfer did not break off.
pub record Reply : Type 0 where
  pub status : ℕ
  pub body : Bytes
  pub complete : Bool

-- `respond` is told the number of the request; `versions_of_json` decodes the current and the pending
-- release of a log; `text_of` is the text of an error.
pub record Client : Type 0 where
  pub respond : ℕ → Bytes → Option Reply
  pub versions_of_json : Bytes → Option (Bytes × Bytes)
  pub text_of : Error → Bytes

-- 1 << 20
abbrev pub body_limit : ℕ
body_limit = 1048576

-- errors.As for a transientFeedError.
abbrev pub is_transient : Error → Bool
is_transient errno = false
is_transient not_exist = false
is_transient (message t) = false
is_transient (wrapped t e) = is_transient e
is_transient (transient e) = true

refused_status : ℕ → Error
refused_status s =
    if s == 408 || s == 429 || leb 500 s then transient (message "status") else message "status"

read_reply : Option Reply → Io Bytes
read_reply none = throw (transient errno)
read_reply (some r) =
    if not (r.status == 200)
    then throw (refused_status r.status)
    else (if r.complete || leb body_limit (length r.body)
        then pure (take body_limit r.body)
        else throw (transient errno))

-- strings.TrimRight(feed, "/")
trim_front_slashes : Bytes → Bytes
trim_front_slashes [] = []
trim_front_slashes (c ∷ s) = if c == b'/' then trim_front_slashes s else c ∷ s

unfoldable pub trim_slashes : Bytes → Bytes
unfolding trim_front_slashes
trim_slashes s = reverse (trim_front_slashes (reverse s))

-- versionNum of cmd/updated.
unfoldable pub feed_version_num : Bytes → Option ℤ
unfolding digits_start
feed_version_num v =
    let i = digits_start v (length v) in
    if i == length v
    then none
    else (let (n, fine) = atoi (drop i v) in if fine then some n else none)

newer_text : Bytes → Bytes → Bool
newer_text a b = not (a =b b) && lt_bytes b a

abbrev newer_number : Option ℤ → Option ℤ → Bool → Bool
newer_number none o text = text
newer_number (some n) none text = text
newer_number (some n) (some m) text = ltb_ℤ m n

unfoldable pub newer : Bytes → Bytes → Bool
unfolding newer_text
newer a b = newer_number (feed_version_num a) (feed_version_num b) (newer_text a b)

-- strings.Trim(v, `"`)
trim_front_quotes : Bytes → Bytes
trim_front_quotes [] = []
trim_front_quotes (c ∷ s) = if c == b'"' then trim_front_quotes s else c ∷ s

unfoldable pub trim_quotes : Bytes → Bytes
unfolding trim_front_quotes
trim_quotes s = reverse (trim_front_quotes (reverse (trim_front_quotes s)))

-- The value of the first line that starts with the text.
unfoldable pub release_value : Bytes → List Bytes → Option Bytes
release_value start [] = none
release_value start (l ∷ ls) = elim (cut_prefix start l) [
  | none ↦ release_value start ls
  | some v ↦ some (trim_quotes v)
]

abbrev pub default_wal : FilePath
default_wal = join (codes "/boot/rootfs") (codes "deployment.json")

abbrev pub os_release_path : FilePath
os_release_path = join (codes "/etc") (codes "os-release")

abbrev wal_or_default : Option FilePath → FilePath
wal_or_default none = default_wal
wal_or_default (some p) = p

or_unknown : Option Bytes → Bytes
or_unknown none = codes "unknown"
or_unknown (some v) = v

-- What a log says is installed: the candidate where it is newer.
unfoldable pub installed_in : Option (Bytes × Bytes) → Option Bytes
installed_in none = none
installed_in (some (current, pending)) =
    if is_empty current
    then none
    else (if not (is_empty pending) && newer pending current then some pending else some current)

module _ (ext : Outside) (client : Client) where
  open ext use {crypto, decoder, sha256, now}
  open client use {respond, versions_of_json, text_of}

  fetch_feed_bytes : Bytes → Io Bytes
  unfolding read_reply refused_status
  fetch_feed_bytes url = do n ← fresh; read_reply (respond n url)

  get_named : Bytes → Bytes → Io Bytes
  get_named feed name = fetch_feed_bytes (trim_slashes feed ++ codes "/" ++ name)

  -- verifiedManifest: the manifest and the SHA256 of its bytes.
  unfoldable pub verified_manifest : Bytes → Bytes → Io (Manifest × Bytes)
  unfolding get_named fetch_feed_bytes
  verified_manifest root feed = do
    cert ← get_named feed (codes "signing-cert.json")
    cert_sig ← get_named feed (codes "signing-cert.json.sig")
    key ← label "signing cert" (certified (verify_cert crypto cert cert_sig root now))
    text ← get_named feed (codes "manifest.json")
    sig ← get_named feed (codes "manifest.json.sig")
    if verify crypto text sig key.0
        then pure tt
        else throw (message "manifest signature invalid -- refusing")
    m ← parsed_manifest (parse_manifest decoder text)
    pure (m, encode_hex (sha256 text))

  release_version : Io Bytes
  release_version =
      attempt (read_file os_release_path)
        (λ b. pure (or_unknown (release_value (codes "VERSION_ID=") (split 10 b))))
        (λ _. pure (codes "unknown"))

  or_release : Option Bytes → Io Bytes
  or_release none = release_version
  or_release (some v) = pure v

  -- installedVersion; `none` is the empty path.
  unfoldable pub installed_version : Option FilePath → Io Bytes
  unfolding or_release release_version or_unknown
  installed_version wal =
      attempt (read_file (wal_or_default wal)) (λ b. or_release (installed_in (versions_of_json b)))
        (λ _. release_version)

  failed_check : Bytes → Error → Status
  failed_check current e = record zero_status {
    state = codes "error";
    current = current;
    error = text_of e;
    retryable = is_transient e;
  }

  unfoldable pub checked_status : Bytes → Manifest × Bytes → Status
  checked_status current (m, digest) = record zero_status {
    state = if newer m.version current then codes "available" else codes "idle";
    current = current;
    latest = m.version;
    product_name = m.product_name;
    product_version = m.product_version;
    product_build = m.product_build;
    loader_available = m.loader_version;
    manifest_sha256 = digest;
  }

  unfoldable pub check : Bytes → Bytes → Bytes → Option FilePath → Io Status
  unfolding failed_check
  check root feed current wal = do
    cur ← if is_empty current then installed_version wal else pure current
    attempt (verified_manifest root feed) (λ r. pure (checked_status cur r))
        (λ e. pure (failed_check cur e))
