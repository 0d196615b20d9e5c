-- ===== src/Otad/Identity.antt =====
-- internal/otad/otad.go: which release the kernel command line says is running.
use atom_loops.Prelude.{Bool, not, ◌&&◌, Option, none, some, List, [], ◌∷◌, if◌then◌else◌}
use atom_loops.Prelude.Text.{Bytes, codes, is_empty, is_space, ◌=b◌, fields_func, cut_prefix}
use atom_loops.System.Io.{Error, message}
use atom_loops.Deployment.State.{Deployment}
use atom_loops.Otad.Version.{same_release}

pub record BootIdentity : Type 0 where
  pub verity_hash : Bytes
  pub version : Bytes

or_keep : Option Bytes → Bytes → Bytes
or_keep none s = s
or_keep (some v) s = v

-- One token of the command line, tried against the four keys in turn.
read_token : BootIdentity → Bytes → BootIdentity
read_token id tok = record {
  verity_hash =
      or_keep (cut_prefix (codes "sing.roothash=") tok)
        (or_keep (cut_prefix (codes "ATOM_ROOT_HASH=") tok) id.verity_hash);
  version =
      or_keep (cut_prefix (codes "atom.version=") tok)
        (or_keep (cut_prefix (codes "ATOM_VERSION=") tok) id.version);
}

read_tokens : BootIdentity → List Bytes → BootIdentity
read_tokens id [] = id
read_tokens id (t ∷ ts) = read_tokens (read_token id t) ts

-- bootedIdentity, from the kernel command line; `none` where it cannot be read.
unfoldable pub booted_identity : Option Bytes → BootIdentity
unfolding read_tokens read_token or_keep
booted_identity none = record { verity_hash = []; version = [] }
booted_identity (some b) =
    read_tokens (record { verity_hash = []; version = [] }) (fields_func is_space b)

-- identityConfirmed
unfoldable pub identity_is_confirmed : BootIdentity → Deployment → Bool
identity_is_confirmed id d =
    not (is_empty id.verity_hash)
    && not (is_empty d.rootfs.pending_hash)
    && id.verity_hash =b d.rootfs.pending_hash
    && not (is_empty id.version)
    && same_release id.version d.rootfs.pending

-- pendingUpdateError: a candidate that runs is being confirmed, another one waits for a reboot.
unfoldable pub pending_update_error : Option Bytes → Deployment → Error
pending_update_error cmdline d =
    let id = booted_identity cmdline in
    if not (is_empty id.verity_hash) && id.verity_hash =b d.rootfs.pending_hash
    then message "the system update is being confirmed"
    else message "a system update is waiting for a reboot"
