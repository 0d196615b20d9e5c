-- ===== src/Deployment/Transition/Firmware.antt =====
-- internal/deployment/transition.go: the firmware track of the log.
use atom_loops.Prelude.{Bool, true, false, not, ◌&&◌, none, some, List, [], ◌∷◌, if◌then◌else◌}
use atom_loops.Prelude.Text.{Bytes, ◌=b◌}
use atom_loops.Prelude.Int.{ℤ, pos, increment, leb_ℤ, ◌=z◌}
use atom_loops.Prelude.Assoc.{Assoc, lookup}
use atom_loops.Deployment.State.{
  FirmwareBundle, Deployment, kc_stable, kc_updating, get_bundle, put_bundle,
}

bundle_is_pending : FirmwareBundle → Bool
bundle_is_pending b = b.state =b kc_updating && not (b.pending_version =z pos 0)

unfoldable pub has_pending_firmware : Bytes → Deployment → Bool
unfolding bundle_is_pending
has_pending_firmware name d = elim (lookup name d.firmware.bundles) [
  | none ↦ false
  | some b ↦ bundle_is_pending b
]

-- The loop of PendingFirmwareBundles over the names of the map.
pending_names : Deployment → Assoc FirmwareBundle → List Bytes
pending_names d [] = []
pending_names d ((name, b) ∷ m) =
    let rest = pending_names d m in if has_pending_firmware name d then name ∷ rest else rest

unfoldable pub pending_firmware_bundles : Deployment → List Bytes
unfolding pending_names
pending_firmware_bundles d = pending_names d d.firmware.bundles

any_pending : Deployment → Assoc FirmwareBundle → Bool
any_pending d [] = false
any_pending d ((name, b) ∷ m) =
    let rest = any_pending d m in if has_pending_firmware name d then true else rest

unfoldable pub has_any_pending_firmware : Deployment → Bool
unfolding any_pending
has_any_pending_firmware d = any_pending d d.firmware.bundles

-- The result is false where the version is refused; the bundle has entered the map all the same.
unfoldable pub deploy_firmware : Bytes → ℤ → Bytes → Deployment → Deployment × Bool
deploy_firmware name version hash d =
    let (f, b) = get_bundle d.firmware name in
    if leb_ℤ version b.min_version then (record d { firmware = f }, false) else (
      record d {
        firmware = put_bundle f name (record b {
          pending_version = version;
          pending_hash = hash;
          state = kc_updating;
          probe_confirms = pos 0;
        });
      },
      true,
    )

unfoldable pub promote_firmware : Bytes → Bytes → Deployment → Deployment
promote_firmware now name d =
    let (f, b) = get_bundle d.firmware name in
    record d {
      firmware = put_bundle f name (record b {
        last_known_good = b.current_version;
        min_version = b.current_version;
        pending_version = pos 0;
        pending_hash = [];
        probe_confirms = pos 0;
        state = kc_stable;
        last_updated = now;
      });
    }

unfoldable pub record_firmware_probe : Bytes → Bytes → Deployment → Deployment × Bool
record_firmware_probe now name d =
    let (f, b) = get_bundle d.firmware name in
    let b' = record b {
      current_version = b.pending_version;
      probe_confirms = increment b.probe_confirms;
    } in
    let e = record d { firmware = put_bundle f name b' } in
    if not (has_pending_firmware name d)
    then (d, false)
    else (if leb_ℤ b'.stable_threshold b'.probe_confirms
        then (promote_firmware now name e, true)
        else (e, false))

unfoldable pub rollback_firmware : Bytes → Deployment → Deployment
rollback_firmware name d =
    let (f, b) = get_bundle d.firmware name in
    let current = if b.last_known_good =z pos 0 then b.current_version else b.last_known_good in
    record d {
      firmware = put_bundle f name (record b {
        current_version = current;
        pending_version = pos 0;
        pending_hash = [];
        probe_confirms = pos 0;
        state = kc_stable;
      });
    }
