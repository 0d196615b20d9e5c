-- ===== src/Deployment/Slots.antt =====
-- internal/deployment/slots.go: which pair of slots the device boots.
use atom_loops.Prelude.{◌&&◌, Option, none, some, if◌then◌else◌}
use atom_loops.Prelude.Int.{pos, leb_ℤ}
use atom_loops.Deployment.State.{Deployment, has_pending}
use atom_loops.Deployment.Transition.{needs_recovery}

pub data Slot : Type 0 where
  active next prev recovery : Slot

slots_of : Deployment → Slot × Slot
slots_of d =
    if needs_recovery d
    then (recovery, recovery)
    else (if has_pending d && leb_ℤ d.rootfs.boot_attempts (pos 0)
        then (prev, prev)
        else (if has_pending d then (next, next) else (active, active)))

-- PickBootTarget: the rootfs slot and the kernelcache slot; `none` is the error on a nil log.
unfoldable pub pick_boot_target : Option Deployment → Option (Slot × Slot)
unfolding slots_of needs_recovery
pick_boot_target none = none
pick_boot_target (some d) = some (slots_of d)
