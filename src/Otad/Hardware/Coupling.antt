-- ===== src/Otad/Hardware/Coupling.antt =====
-- When a kernel update is let through.
use mathlib.Core.Path.{subst}
use atom_loops.Prelude.{
  true, false, ◌&&◌, ◌≡◌, ◌↔◌, refl, sym, List, [], ◌∷◌, arith, any, Bool-cases, inl, inr,
}
use atom_loops.Prelude.Text.{Bytes, ◌=b◌, =b_iff, =b_refl, mem_bytes, is_empty}
use atom_loops.Otad.Manifest.{FirmwareBundleSpec, Manifest, firmware_bundle_list}
use atom_loops.Otad.Hardware.{
  is_kernel_bound_for, matches_hardware, coupled_kernel_check, chips_are_served, offers, serves,
}

-- Where a bundle binds the chip's driver to a kernel, one such bundle matches the target.
abbrev pub IsServed : List FirmwareBundleSpec → Bytes → Bytes → Type 0
IsServed bs target c =
    any (λ b. is_kernel_bound_for b c) bs ≡ true
    → any (λ b. is_kernel_bound_for b c && matches_hardware b (c ∷ []) target) bs ≡ true

-- The tail of the chips passes too.
IsServed-tail :
    (bs : List FirmwareBundleSpec) (target x : Bytes) (cs : List Bytes)
    → chips_are_served bs target (x ∷ cs) ≡ true
    → (chips_are_served bs target cs ≡ true) × IsServed bs target x
unfolding chips_are_served offers serves
IsServed-tail bs target x cs h = (ground arith, λ o. ground arith)

IsServed-all :
    (bs : List FirmwareBundleSpec) (target : Bytes) (chips : List Bytes)
    → chips_are_served bs target chips ≡ true
    → (c : Bytes) → mem_bytes c chips ≡ true
    → IsServed bs target c
IsServed-all bs target [] h c m = cc
IsServed-all bs target (x ∷ cs) h c m = elim (Bool-cases (c =b x)) [
  | inl e ↦ subst (IsServed bs target) (sym ((=b_iff c x).0 e)) (IsServed-tail bs target x cs h).1
  | inr e ↦ IsServed-all bs target cs (IsServed-tail bs target x cs h).0 c (ground arith)
]

all_served :
    (bs : List FirmwareBundleSpec) (target : Bytes) (chips : List Bytes)
    → ((c : Bytes) → mem_bytes c chips ≡ true → IsServed bs target c)
    → chips_are_served bs target chips ≡ true
unfolding chips_are_served offers serves
all_served bs target [] h = refl
all_served bs target (x ∷ cs) h =
    ground (arith, all_served bs target cs (λ c m. h c (ground arith)), h x, =b_refl x)

-- An update is let through exactly where it names no target kernel, or the running one, or where each
-- graphics chip of the machine that has a driver bundle bound to some kernel has one that matches the
-- target kernel.
pub coupled_kernel_check_iff :
    (m : Manifest) (running : Bytes) (chips : List Bytes)
    → (coupled_kernel_check m running chips ≡ true) ↔ (
        (is_empty m.kernel_release ≡ false
          → m.kernel_release =b running ≡ false
          → (c : Bytes) → mem_bytes c chips ≡ true
          → IsServed (firmware_bundle_list m) m.kernel_release c))
unfolding coupled_kernel_check
coupled_kernel_check_iff m running chips = (
  λ h p q. IsServed-all (firmware_bundle_list m) m.kernel_release chips (ground arith),
  λ h. ground (
    arith,
    λ (p : is_empty m.kernel_release ≡ false) (q : m.kernel_release =b running ≡ false).
        all_served (firmware_bundle_list m) m.kernel_release chips (h p q),
  ),
)
