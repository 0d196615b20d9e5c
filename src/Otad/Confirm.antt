-- ===== src/Otad/Confirm.antt =====
-- internal/otad/otad.go: the firmware track after a boot, with the result of the device probe.
pub mod Retry
use atom_loops.Prelude.{Bool, true, false, not, List, [], ◌∷◌, ◌++◌, if◌then◌else◌}
use atom_loops.Prelude.Text.{Bytes}
use atom_loops.Prelude.Sorting.{sort_texts}
use atom_loops.System.Files.{FilePath}
use atom_loops.System.Io.{Io, pure, label, ◌>>=◌, ◌>>◌}
use atom_loops.Deployment.State.{Deployment}
use atom_loops.Deployment.Transition.{
  has_pending_firmware, pending_firmware_bundles, record_firmware_probe, rollback_firmware,
}
use atom_loops.Deployment.Wal.{Json, load, save}
use atom_loops.Otad.Anchor.{rollback_firmware_slot, finalize_firmware_slot}
use atom_loops.Otad.Slots.{StageDirs}

-- The messages of FirmwareBootConfirm.
pub data FirmwareReport : Type 0 where
  no_candidate : FirmwareReport
  rolled_back : FirmwareReport
  promoted : FirmwareReport
  good_probe : FirmwareReport

module _ (json : Json) (now : Bytes) (wal : FilePath) (dirs : StageDirs) where
  slot_dir : Bytes → Bytes
  slot_dir bundle = dirs.firmware_dir ++ b'/' ∷ bundle

  roll_back_bundle : Bytes → Deployment → Io FirmwareReport
  roll_back_bundle bundle d = do
    save json wal (rollback_firmware bundle d)
    label "WAL rolled back but slot restore failed" (rollback_firmware_slot (slot_dir bundle))
    pure rolled_back

  finalize_bundle : Bytes → Bool → Io FirmwareReport
  finalize_bundle bundle false = pure good_probe
  finalize_bundle bundle true = do finalize_firmware_slot (slot_dir bundle); pure promoted

  confirm_bundle : Bytes → Deployment × Bool → Io FirmwareReport
  confirm_bundle bundle (e, good) = do save json wal e; finalize_bundle bundle good

  confirm_loaded : Bytes → Bool → Deployment → Io FirmwareReport
  confirm_loaded bundle probe_ok d =
      if not (has_pending_firmware bundle d)
      then pure no_candidate
      else (if not probe_ok
          then roll_back_bundle bundle d
          else confirm_bundle bundle (record_firmware_probe now bundle d))

  unfoldable pub firmware_boot_confirm : Bytes → Bool → Io FirmwareReport
  unfolding confirm_loaded confirm_bundle finalize_bundle roll_back_bundle slot_dir
  firmware_boot_confirm bundle probe_ok = load json wal >>= confirm_loaded bundle probe_ok

  -- The loop of FirmwareBootConfirmAll, which the first error stops.
  confirm_each : Bool → List Bytes → Io (List FirmwareReport)
  confirm_each probe_ok [] = pure []
  confirm_each probe_ok (name ∷ names) = do
    r ← firmware_boot_confirm name probe_ok
    rs ← confirm_each probe_ok names
    pure (r ∷ rs)

  -- The empty list stands for "no firmware candidate in flight".
  unfoldable pub firmware_boot_confirm_all : Bool → Io (List FirmwareReport)
  unfolding confirm_each
  firmware_boot_confirm_all probe_ok = do
    d ← load json wal
    confirm_each probe_ok (sort_texts (pending_firmware_bundles d))
