-- ===== src/Otad/BootState/Choice.antt =====
-- The daemon's boot-state beside the slots of internal/deployment/slots.go.
use atom_loops.Prelude.{◌≡◌, Bool, true, false, some, arith}
use atom_loops.Prelude.Text.{Bytes, codes}
use atom_loops.Prelude.Int.{pos, ltb_ℤ}
use atom_loops.Deployment.State.{Deployment}
use atom_loops.Deployment.Slots.{Slot, active, next, prev, recovery, pick_boot_target}
use atom_loops.Otad.BootState.{choose}

-- The slot that the loader is told of: it has no `prev`, and falls back from `next` by itself.
abbrev pub loader_slot : Slot → Bytes
loader_slot active = codes "active"
loader_slot next = codes "next"
loader_slot prev = codes "next"
loader_slot recovery = codes "recovery"

abbrev pub on_trial : Slot → Bool
on_trial active = false
on_trial next = true
on_trial prev = true
on_trial recovery = false

abbrev pub has_budget : Slot → Bool
has_budget next = true
has_budget active = false
has_budget prev = false
has_budget recovery = false

-- The boot-state that the daemon writes tells the loader of the slot that PickBootTarget picks for the
-- same log: the target is that slot, but `next` where PickBootTarget picks `prev`; the two are a trial,
-- the others none; and attempts are left exactly where PickBootTarget picks `next`.
pub choose-pick_boot_target :
    (d : Deployment) (s t : Slot)
    → pick_boot_target (some d) ≡ some (s, t)
    → (s ≡ t)
      × ((choose d).target ≡ loader_slot s)
      × ((choose d).trial ≡ on_trial s)
      × (ltb_ℤ (pos 0) (choose d).attempts ≡ has_budget s)
unfolding choose pick_boot_target
choose-pick_boot_target d s t h = ground arith
