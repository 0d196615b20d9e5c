-- ===== src/Deployment/Transition.antt =====
-- internal/deployment/transition.go: the transitions of the log. The clock is an argument, `now`: the
-- RFC 3339 text that `timestamp()` returns at that call.
pub mod Invariant
pub mod Versions
pub mod Firmware
unfoldable pub use Firmware.{
  has_pending_firmware, pending_firmware_bundles, has_any_pending_firmware, deploy_firmware,
  promote_firmware, record_firmware_probe, rollback_firmware,
}
use atom_loops.Prelude.{
  ℕ, zero, suc, Bool, true, false, not, ◌&&◌, Option, none, some, List, [], ◌∷◌, ◌==◌, length,
  get_or, drop, if◌then◌else◌,
}
use atom_loops.Prelude.Text.{Bytes, codes, is_empty, is_digit, ◌=b◌}
use atom_loops.Prelude.Int.{ℤ, pos, increment, decrement, ltb_ℤ, leb_ℤ, ◌=z◌}
use atom_loops.Prelude.Numerals.{atoi}
use atom_loops.Prelude.Assoc.{Assoc, lookup}
use atom_loops.Deployment.State.{
  RootFs, Kernelcache, FirmwareBundle, Deployment, kc_stable, kc_updating, get_bundle, put_bundle,
  has_pending,
}

-- The loop of kcOf: the first index of the trailing run of digits.
unfoldable pub digits_start : Bytes → ℕ → ℕ
digits_start v zero = zero
digits_start v (suc i) = if is_digit (get_or v i 0) then digits_start v i else suc i

kc_of_digits : Bytes → Option ℤ
kc_of_digits s = let (n, done) = atoi s in if done then some n else none

unfoldable pub kc_of : Bytes → Option ℤ
unfolding digits_start kc_of_digits
kc_of v =
    let i = digits_start v (length v) in if i == length v then none else kc_of_digits (drop i v)

-- New, from the device's name and its first image.
unfoldable pub new : Bytes → Bytes → Bytes → Deployment
new now device_id version = record {
  rootfs = record {
    current = version;
    pending = [];
    pending_hash = [];
    rollback = [];
    boot_attempts = pos 0;
    max_attempts = pos 3;
    last_known_good = version;
    last_known_good_at = now;
  };
  kernelcache = record {
    current_version = elim (kc_of version) [ some kc ↦ kc | none ↦ pos 0 ];
    pending_version = pos 0;
    state = kc_stable;
    stable_boots = pos 0;
    stable_threshold = pos 3;
    format = codes "uki";
  };
  firmware = record { bundles = [] };
  recovery = record { version = []; path = []; last_updated = [] };
  security = record {
    level = pos 0;
    dm_verity = false;
    secure_boot = false;
    ima = false;
    signing_cert = [];
    remote_attestation = false;
  };
  anti_rollback = record { hardware = codes "none"; counter_value = pos 0; last_updated = [] };
  orphan_homes = [];
  recovery_entry = codes "recovery";
  meta = record {
    schema_version = pos 1;
    device_id = device_id;
    channel = codes "stable";
    last_update_check = [];
  };
}

set_kc : Option ℤ → (ℤ → Kernelcache) → Kernelcache → Kernelcache
set_kc none f k = k
set_kc (some kc) f k = f kc

unfoldable pub deploy : Bytes → Deployment → Deployment
unfolding set_kc
deploy version d =
    let k = d.kernelcache in
    let k' = set_kc (kc_of version) (λ kc. record k { pending_version = kc }) k in
    record d {
      rootfs = record d.rootfs { pending = version; boot_attempts = d.rootfs.max_attempts };
      kernelcache = record k' { state = kc_updating; stable_boots = pos 0 };
    }

unfoldable pub promote : Bytes → Deployment → Deployment
promote now d = record d {
  rootfs = record d.rootfs {
    last_known_good = d.rootfs.current;
    last_known_good_at = now;
    pending = [];
    boot_attempts = pos 0;
  };
  kernelcache = record d.kernelcache {
    pending_version = pos 0;
    stable_boots = pos 0;
    state = kc_stable;
  };
  anti_rollback = record d.anti_rollback {
    counter_value = d.kernelcache.current_version;
    last_updated = now;
  };
}

-- The switch to the candidate on its first good boot.
switch_to_pending : Deployment → Deployment
switch_to_pending d = if d.rootfs.current =b d.rootfs.pending then d else record d {
  rootfs = record d.rootfs { rollback = d.rootfs.current; current = d.rootfs.pending };
  kernelcache = record d.kernelcache { current_version = d.kernelcache.pending_version };
}

count_good_boot : Deployment → Deployment
count_good_boot d = record d {
  kernelcache = record d.kernelcache { stable_boots = increment d.kernelcache.stable_boots };
  rootfs = record d.rootfs { boot_attempts = d.rootfs.max_attempts };
}

unfoldable pub record_good_boot : Bytes → Bool → Deployment → Deployment × Bool
unfolding switch_to_pending count_good_boot promote
record_good_boot now identity_confirmed d =
    let e = count_good_boot (switch_to_pending d) in
    if not (has_pending d)
    then (d, false)
    else (if identity_confirmed && leb_ℤ e.kernelcache.stable_threshold e.kernelcache.stable_boots
        then (promote now e, true)
        else (e, false))

unfoldable pub promote_running : Bytes → Deployment → Deployment
unfolding promote
promote_running now d = if has_pending d then promote now d else d

-- The version that the initramfs boots, and whether it is the candidate.
unfoldable pub boot_version : Deployment → Bytes × Bool
boot_version d = if has_pending d then (d.rootfs.pending, true) else (d.rootfs.current, false)

-- The result tells that the budget is spent.
unfoldable pub decrement_boot_attempt : Deployment → Deployment × Bool
decrement_boot_attempt d =
    let n = d.rootfs.boot_attempts in
    let n' = if ltb_ℤ (pos 0) n then decrement n else n in
    if not (has_pending d)
    then (d, false)
    else (record d { rootfs = record d.rootfs { boot_attempts = n' } }, leb_ℤ n' (pos 0))

-- The version that Rollback returns to.
rollback_target : RootFs → Bytes
rollback_target r =
    if not (is_empty r.last_known_good)
    then r.last_known_good
    else (if not (is_empty r.rollback) then r.rollback else r.current)

unfoldable pub rollback : Deployment → Deployment
unfolding rollback_target set_kc
rollback d =
    let target = rollback_target d.rootfs in
    let k = d.kernelcache in
    let k' = set_kc (kc_of target) (λ kc. record k { current_version = kc }) k in
    record d {
      rootfs = record d.rootfs { current = target; pending = []; boot_attempts = pos 0 };
      kernelcache = record k' { pending_version = pos 0; stable_boots = pos 0; state = kc_stable };
    }

unfoldable pub needs_recovery : Deployment → Bool
needs_recovery d =
    has_pending d && leb_ℤ d.rootfs.boot_attempts (pos 0) && is_empty d.rootfs.last_known_good
