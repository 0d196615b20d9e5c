-- ===== src/Agent/Status.antt =====
-- cmd/updated/main.go: the status that the shell polls, and its file.
use atom_loops.Prelude.{Bool, false, not, ◌||◌, Option, none, some, [], ◌++◌, if◌then◌else◌}
use atom_loops.Prelude.Text.{Bytes, codes, is_empty, ◌=b◌}
use atom_loops.Prelude.Int.{ℤ, pos}
use atom_loops.Prelude.Hex.{encode_hex}
use atom_loops.System.Files.{FilePath, suffixed}
use atom_loops.System.Io.{
  Io, pure, after, attempt, ignore, settle, read_file, write_new, rename, remove, ◌>>◌,
}

pub record Status : Type 0 where
  pub state : Bytes
  pub current : Bytes
  pub latest : Bytes
  pub product_name : Bytes
  pub product_version : Bytes
  pub product_build : Bytes
  pub consent_token : Bytes
  pub percent : ℤ
  pub error : Bytes
  pub loader_available : ℤ
  pub manifest_sha256 : Bytes
  pub retryable : Bool

-- Status{}
abbrev pub zero_status : Status
zero_status = record {
  state = [];
  current = [];
  latest = [];
  product_name = [];
  product_version = [];
  product_build = [];
  consent_token = [];
  percent = pos 0;
  error = [];
  loader_available = pos 0;
  manifest_sha256 = [];
  retryable = false;
}

abbrev pub is_state : Bytes → Status → Bool
is_state name s = s.state =b name

-- The text that a consent token is the hash of.
abbrev pub consent_text : Bytes → Bytes
consent_text digest = codes "sinty-update-consent-v1:" ++ digest

unfoldable pub client_status : (Bytes → Bytes) → Status → Status
client_status sha256 s =
    let bare = record s { consent_token = [] } in
    if not (is_state (codes "available") bare) || is_empty bare.manifest_sha256
    then bare
    else record bare { consent_token = encode_hex (sha256 (consent_text bare.manifest_sha256)) }

-- encoding/json on the status with its digest; MarshalIndent's error is ignored.
pub record StatusJson : Type 0 where
  pub encode : Status → Bytes
  pub decode : Bytes → Option Status

-- `pid` is the number of the process in decimal. `none` is the empty path.
temp_suffix : Bytes → Bytes
temp_suffix pid = codes "." ++ pid ++ codes ".tmp"

unfoldable pub write_status : StatusJson → Bytes → Option FilePath → Status → Io (Unit {0})
unfolding temp_suffix
write_status json pid none s = pure tt
write_status json pid (some p) s = do
  ignore settle
  after
      (write_new (suffixed p (temp_suffix pid)) (json.encode s)
        >> rename (suffixed p (temp_suffix pid)) p)
      (remove (suffixed p (temp_suffix pid)))

unfoldable pub read_status : StatusJson → Option FilePath → Io (Option Status)
read_status json none = pure none
read_status json (some p) = attempt (read_file p) (λ b. pure (json.decode b)) (λ _. pure none)
