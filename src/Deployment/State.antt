-- ===== src/Deployment/State.antt =====
-- internal/deployment/deployment.go: the records of deployment.json. A Go `int` is a `ℤ`, a string a
-- list of bytes. The bundle map holds bundles and not pointers to them: no operation keeps a second
-- pointer to a bundle across another operation.
use atom_loops.Prelude.{Bool, none, some, List, [], not}
use atom_loops.Prelude.Text.{Bytes, codes, is_empty}
use atom_loops.Prelude.Int.{ℤ, pos}
use atom_loops.Prelude.Assoc.{Assoc, lookup, insert}

pub record RootFs : Type 0 where
  pub current : Bytes
  pub pending : Bytes
  pub pending_hash : Bytes
  pub rollback : Bytes
  pub boot_attempts : ℤ
  pub max_attempts : ℤ
  pub last_known_good : Bytes
  pub last_known_good_at : Bytes

pub record Kernelcache : Type 0 where
  pub current_version : ℤ
  pub pending_version : ℤ
  pub state : Bytes
  pub stable_boots : ℤ
  pub stable_threshold : ℤ
  pub format : Bytes

pub record FirmwareBundle : Type 0 where
  pub current_version : ℤ
  pub pending_version : ℤ
  pub pending_hash : Bytes
  pub state : Bytes
  pub probe_confirms : ℤ
  pub stable_threshold : ℤ
  pub last_known_good : ℤ
  pub min_version : ℤ
  pub last_updated : Bytes

pub record Firmware : Type 0 where
  pub bundles : Assoc FirmwareBundle

pub record Recovery : Type 0 where
  pub version : Bytes
  pub path : Bytes
  pub last_updated : Bytes

pub record Security : Type 0 where
  pub level : ℤ
  pub dm_verity : Bool
  pub secure_boot : Bool
  pub ima : Bool
  pub signing_cert : Bytes
  pub remote_attestation : Bool

pub record AntiRollback : Type 0 where
  pub hardware : Bytes
  pub counter_value : ℤ
  pub last_updated : Bytes

pub record Meta : Type 0 where
  pub schema_version : ℤ
  pub device_id : Bytes
  pub channel : Bytes
  pub last_update_check : Bytes

pub record Deployment : Type 0 where
  pub rootfs : RootFs
  pub kernelcache : Kernelcache
  pub firmware : Firmware
  pub recovery : Recovery
  pub security : Security
  pub anti_rollback : AntiRollback
  pub orphan_homes : List Bytes
  pub recovery_entry : Bytes
  pub meta : Meta

-- KCStable, KCUpdating
abbrev pub kc_stable : Bytes
kc_stable = codes "stable"

abbrev pub kc_updating : Bytes
kc_updating = codes "updating"

abbrev pub firmware_stable_threshold : ℤ
firmware_stable_threshold = pos 3

abbrev pub fresh_bundle : FirmwareBundle
fresh_bundle = record {
  current_version = pos 0;
  pending_version = pos 0;
  pending_hash = [];
  state = kc_stable;
  probe_confirms = pos 0;
  stable_threshold = firmware_stable_threshold;
  last_known_good = pos 0;
  min_version = pos 0;
  last_updated = [];
}

-- Bundle: the bundle of a name, which enters the map on first use.
unfoldable pub get_bundle : Firmware → Bytes → Firmware × FirmwareBundle
get_bundle f name = elim (lookup name f.bundles) [
  | some b ↦ (f, b)
  | none ↦ (record f { bundles = insert name fresh_bundle f.bundles }, fresh_bundle)
]

-- What a write through the pointer that Bundle returned leaves in the map.
abbrev pub put_bundle : Firmware → Bytes → FirmwareBundle → Firmware
put_bundle f name b = record f { bundles = insert name b f.bundles }

abbrev pub has_pending : Deployment → Bool
has_pending d = not (is_empty d.rootfs.pending)
