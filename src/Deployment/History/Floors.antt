-- ===== src/Deployment/History/Floors.antt =====
-- The firmware track: bundles are independent, and no anti-rollback floor ever falls.
use atom_loops.Prelude.{
  Bool, true, not, ◌&&◌, ◌≡◌, some, none, arith, if◌then◌else◌, Bool-cases, inl, inr,
}
use atom_loops.Prelude.Text.{Bytes, ◌=b◌, =b_iff, =b_refl}
use atom_loops.Prelude.Int.{ℤ, pos, increment, leb_ℤ, ltb_ℤ, ◌=z◌}
use atom_loops.Prelude.Assoc.{lookup, lookup-insert}
use atom_loops.Deployment.State.{
  Deployment, FirmwareBundle, fresh_bundle, get_bundle, put_bundle, kc_updating,
}
use atom_loops.Deployment.Transition.{
  new, deploy, record_good_boot, promote_running, deploy_firmware, record_firmware_probe,
  rollback_firmware, decrement_boot_attempt, rollback, promote_firmware, has_pending_firmware,
}
use atom_loops.Otad.Daemon.{fallback_log}
use atom_loops.Deployment.History.{
  Step, deployed, hash_recorded, fell_back, recovery_recorded, booted, promoted, attempted,
  rolled_back, firmware_deployed, firmware_probed, firmware_rolled_back, Reachable, provisioned,
  next,
}

-- The bundle of a name; one that was never used is as `Bundle` would make it.
abbrev pub bundle_at : Bytes → Deployment → FirmwareBundle
bundle_at name d = elim (lookup name d.firmware.bundles) [ some b ↦ b | none ↦ fresh_bundle ]

abbrev pub is_candidate : FirmwareBundle → Bool
is_candidate b = b.state =b kc_updating && not (b.pending_version =z pos 0)

-- A candidate in flight stands above its bundle's floor.
abbrev pub IsFloored : Bytes → Deployment → Type 0
IsFloored j d =
    is_candidate (bundle_at j d) ≡ true
    → ltb_ℤ (bundle_at j d).min_version (bundle_at j d).pending_version ≡ true

pub has_pending_firmware_lem :
    (j : Bytes) (d : Deployment) → has_pending_firmware j d ≡ is_candidate (bundle_at j d)
unfolding has_pending_firmware
has_pending_firmware_lem j d = ground arith

abbrev pub with_bundle : Bytes → FirmwareBundle → Deployment → Deployment
with_bundle name b d = record d { firmware = put_bundle (get_bundle d.firmware name).0 name b }

module _ (name j : Bytes) (d : Deployment) where
  pub get_bundle_lem : (get_bundle d.firmware name).1 ≡ bundle_at name d
  unfolding get_bundle
  get_bundle_lem = ground arith

  -- The entry that Bundle makes does not show.
  pub bundle_at-get_bundle :
      bundle_at j (record d { firmware = (get_bundle d.firmware name).0 }) ≡ bundle_at j d
  unfolding get_bundle
  bundle_at-get_bundle =
      ground (arith, lookup-insert name j fresh_bundle d.firmware.bundles, =b_iff name j)

  pub bundle_at-with_bundle :
      (b : FirmwareBundle)
      → bundle_at j (with_bundle name b d) ≡ (if name =b j then b else bundle_at j d)
  bundle_at-with_bundle b =
      ground
        (arith, lookup-insert name j b (get_bundle d.firmware name).0.bundles, bundle_at-get_bundle)

-- What a step may do to a bundle: its candidate stays above the floor, and the floor does not fall.
pub record Guarded (j : Bytes) (d e : Deployment) : Type 0 where
  pub floored : IsFloored j e
  pub rises : leb_ℤ (bundle_at j d).min_version (bundle_at j e).min_version ≡ true

-- The same, from the two bundles.
abbrev Moves : FirmwareBundle → FirmwareBundle → Type 0
Moves b c =
    (is_candidate c ≡ true → ltb_ℤ c.min_version c.pending_version ≡ true)
    × (leb_ℤ b.min_version c.min_version ≡ true)

abbrev pub staged : ℤ → Bytes → FirmwareBundle → FirmwareBundle
staged v hash b = record b {
  pending_version = v;
  pending_hash = hash;
  state = kc_updating;
  probe_confirms = pos 0;
}

Moves-refl :
    (b : FirmwareBundle)
    → (is_candidate b ≡ true → ltb_ℤ b.min_version b.pending_version ≡ true)
    → Moves b b
Moves-refl b h = ground arith

module _ (name j : Bytes) (d : Deployment) (safe : (k : Bytes) → IsFloored k d) where
  with_bundle-Guarded :
      (b : FirmwareBundle) → Moves (bundle_at name d) b → Guarded j d (with_bundle name b d)
  with_bundle-Guarded b m =
      ground
        (arith, bundle_at-with_bundle name j d b, =b_iff name j, safe j, Moves-refl (bundle_at j d))

  deploy_firmware-Guarded : (v : ℤ) (hash : Bytes) → Guarded j d (deploy_firmware name v hash d).0
  unfolding deploy_firmware
  deploy_firmware-Guarded v hash = ground (
    arith,
    get_bundle_lem name j d,
    bundle_at-get_bundle name j d,
    safe j,
    Moves-refl (bundle_at j d),
    with_bundle-Guarded (staged v hash (bundle_at name d)),
  )

  rollback_firmware-Guarded : Guarded j d (rollback_firmware name d)
  unfolding rollback_firmware
  rollback_firmware-Guarded = with_bundle-Guarded _ (ground (arith, get_bundle_lem name j d))

Guarded-trans : (j : Bytes) (d e f : Deployment) → Guarded j d e → Guarded j e f → Guarded j d f
Guarded-trans j d e f g h = ground arith

-- The bundle of a clean probe, before a promotion.
abbrev probed : FirmwareBundle → FirmwareBundle
probed b = record b {
  current_version = b.pending_version;
  probe_confirms = increment b.probe_confirms;
}

module _ (now name j : Bytes) (d : Deployment) (safe : (k : Bytes) → IsFloored k d) where
  probed-Guarded :
      (k : Bytes)
      → has_pending_firmware name d ≡ true
      → Guarded k d (with_bundle name (probed (bundle_at name d)) d)
  probed-Guarded k h =
      with_bundle-Guarded name k d safe (probed (bundle_at name d))
        (ground (arith, safe name, has_pending_firmware_lem name d))

  promote_firmware-Guarded :
      (e : Deployment)
      → ((k : Bytes) → IsFloored k e)
      → leb_ℤ (bundle_at name e).min_version (bundle_at name e).current_version ≡ true
      → Guarded j e (promote_firmware now name e)
  unfolding promote_firmware
  promote_firmware-Guarded e s h =
      with_bundle-Guarded name j e s _ (ground (arith, get_bundle_lem name j e))

  probed-rises :
      has_pending_firmware name d ≡ true
      → let b = bundle_at name (with_bundle name (probed (bundle_at name d)) d) in
        leb_ℤ b.min_version b.current_version ≡ true
  probed-rises h = ground (
    arith,
    bundle_at-with_bundle name name d (probed (bundle_at name d)),
    =b_refl name,
    safe name,
    has_pending_firmware_lem name d,
  )

  record_firmware_probe-Guarded : Guarded j d (record_firmware_probe now name d).0
  unfolding record_firmware_probe
  record_firmware_probe-Guarded = elim (Bool-cases (has_pending_firmware name d)) [
    | inl h ↦
        let e = with_bundle name (probed (bundle_at name d)) d in
        rw (h, get_bundle_lem name j d)
          (ground (
            arith,
            probed-Guarded j h,
            Guarded-trans j d e (promote_firmware now name e) (probed-Guarded j h)
                (promote_firmware-Guarded e (λ k. (probed-Guarded k h).floored) (probed-rises h)),
          ))
    | inr h ↦ rw h (record { floored = safe j; rises = ground arith })
  ]

SameFirmware-Guarded :
    (j : Bytes) {d e : Deployment} → e.firmware ≡ d.firmware → IsFloored j d → Guarded j d e
SameFirmware-Guarded j {d} {e} same s = ground arith

Step-Guarded :
    {d e : Deployment} → Step d e → ((k : Bytes) → IsFloored k d) → (j : Bytes) → Guarded j d e
unfolding deploy record_good_boot promote_running decrement_boot_attempt rollback fallback_log
Step-Guarded (deployed v d) s j = SameFirmware-Guarded j (ground arith) (s j)
Step-Guarded (hash_recorded h d) s j = SameFirmware-Guarded j (ground arith) (s j)
Step-Guarded (fell_back bs d p) s j = SameFirmware-Guarded j (ground arith) (s j)
Step-Guarded (recovery_recorded v now d) s j = SameFirmware-Guarded j (ground arith) (s j)
Step-Guarded (booted now b d) s j = SameFirmware-Guarded j (ground arith) (s j)
Step-Guarded (promoted now d) s j = SameFirmware-Guarded j (ground arith) (s j)
Step-Guarded (attempted d) s j = SameFirmware-Guarded j (ground arith) (s j)
Step-Guarded (rolled_back d) s j = SameFirmware-Guarded j (ground arith) (s j)
Step-Guarded (firmware_deployed n v h d) s j = deploy_firmware-Guarded n j d s v h
Step-Guarded (firmware_probed now n d) s j = record_firmware_probe-Guarded now n j d s
Step-Guarded (firmware_rolled_back n d) s j = rollback_firmware-Guarded n j d s

new-IsFloored : (now id v j : Bytes) → IsFloored j (new now id v)
unfolding new lookup
new-IsFloored now id v j h = cc

-- In every log that a provisioned device reaches, a firmware candidate in flight is above the floor of
-- its bundle.
pub Reachable-IsFloored : {d : Deployment} → Reachable d → (j : Bytes) → IsFloored j d
Reachable-IsFloored (provisioned now id v h) j = new-IsFloored now id v j
Reachable-IsFloored (next r s) j = (Step-Guarded s (Reachable-IsFloored r) j).floored

-- No transition and no write of the daemon, from a log that a provisioned device reaches, lowers the
-- anti-rollback floor of any firmware bundle.
pub floors_never_fall :
    {d e : Deployment}
    → Reachable d
    → Step d e
    → (j : Bytes) → leb_ℤ (bundle_at j d).min_version (bundle_at j e).min_version ≡ true
floors_never_fall r s j = (Step-Guarded s (Reachable-IsFloored r) j).rises
