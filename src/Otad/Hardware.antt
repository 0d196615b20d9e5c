-- ===== src/Otad/Hardware.antt =====
-- internal/otad/hwselect.go: which firmware bundles a machine needs. The running kernel and the graphics
-- chips are arguments.
pub mod Order
pub mod Coupling
use atom_loops.Prelude.{
  ℕ, Bool, true, false, not, ◌&&◌, ◌||◌, Option, none, some, List, [], ◌∷◌, any, all, ◌==◌,
  if◌then◌else◌,
}
use atom_loops.Prelude.Text.{
  Bytes, codes, is_empty, ◌=b◌, mem_bytes, trim_space, has_prefix, fields_func, lt_bytes,
}
use atom_loops.Prelude.Int.{ℤ, ◌=z◌, ltb_ℤ}
use atom_loops.Prelude.Numerals.{atoi}
use atom_loops.Otad.Manifest.{FirmwareBundleSpec, Manifest, firmware_bundle_list}

-- One PCI device as DetectGPUChips sees it: the `class` and the `vendor` file, `none` where a file
-- cannot be read.
pub record PciDevice : Type 0 where
  pub class : Option Bytes
  pub vendor : Option Bytes

is_display : PciDevice → Bool
is_display d = elim d.class [ none ↦ false | some c ↦ has_prefix (codes "0x03") (trim_space c) ]

has_vendor : Bytes → PciDevice → Bool
has_vendor v d = is_display d && elim d.vendor [ none ↦ false | some b ↦ trim_space b =b v ]

-- DetectGPUChips
unfoldable pub detect_gpu_chips : List PciDevice → List Bytes
unfolding has_vendor is_display
detect_gpu_chips devs =
    let amd = if any (has_vendor (codes "0x1002")) devs then codes "amd" ∷ [] else [] in
    if any (has_vendor (codes "0x10de")) devs then codes "nvidia" ∷ amd else amd

-- isGPUChip
unfoldable pub is_gpu_chip : Bytes → Bool
is_gpu_chip c = c =b codes "nvidia" || c =b codes "amd"

-- splitVer
abbrev is_separator : ℕ → Bool
is_separator c = c == b'.' || c == b'-' || c == b'_'

unfoldable pub split_ver : Bytes → List Bytes
split_ver s = fields_func is_separator s

pub data Sign : Type 0 where
  less same greater : Sign

-- One round of cmpKernel; `same` goes on to the next.
unfoldable pub cmp_part : Bytes → Bytes → Sign
cmp_part x y =
    let (xi, xe) = atoi x in
    let (yi, ye) = atoi y in
    if xe && ye
    then (if xi =z yi then same else (if ltb_ℤ xi yi then less else greater))
    else (if x =b y then same else (if lt_bytes x y then less else greater))

abbrev then_by : Sign → Sign → Sign
then_by less o = less
then_by same o = o
then_by greater o = greater

-- The loop of cmpKernel: a missing part is empty.
unfoldable pub cmp_parts : List Bytes → List Bytes → Sign
cmp_parts [] [] = same
cmp_parts [] (y ∷ ys) = then_by (cmp_part [] y) (cmp_parts [] ys)
cmp_parts (x ∷ xs) [] = then_by (cmp_part x []) (cmp_parts xs [])
cmp_parts (x ∷ xs) (y ∷ ys) = then_by (cmp_part x y) (cmp_parts xs ys)

-- cmpKernel
unfoldable pub cmp_kernel : Bytes → Bytes → Sign
cmp_kernel a b = cmp_parts (split_ver a) (split_ver b)

abbrev is_less : Sign → Bool
is_less less = true
is_less same = false
is_less greater = false

abbrev is_greater : Sign → Bool
is_greater less = false
is_greater same = false
is_greater greater = true

-- The chips of a bundle that gate it, and whether one of them is present.
gate_chips : List Bytes → List Bytes
gate_chips [] = []
gate_chips (c ∷ cs) = let rest = gate_chips cs in if is_gpu_chip c then c ∷ rest else rest

gate_is_open : List Bytes → List Bytes → Bool
gate_is_open [] chips = true
gate_is_open (c ∷ cs) chips = any (λ d. mem_bytes d chips) (c ∷ cs)

-- MatchesHardware
unfoldable pub matches_hardware : FirmwareBundleSpec → List Bytes → Bytes → Bool
unfolding gate_chips gate_is_open
matches_hardware f chips kernel =
    if not (gate_is_open (gate_chips f.chips) chips)
    then false
    else (if not (is_empty f.kernel_min)
          && not (is_empty kernel)
          && is_less (cmp_kernel kernel f.kernel_min)
        then false
        else not (
            not (is_empty f.kernel_max)
            && not (is_empty kernel)
            && is_greater (cmp_kernel kernel f.kernel_max)))

-- isKernelBoundFor
unfoldable pub is_kernel_bound_for : FirmwareBundleSpec → Bytes → Bool
is_kernel_bound_for f chip =
    if is_empty f.kernel_min && is_empty f.kernel_max then false else mem_bytes chip f.chips

-- The two flags of the inner loop of CoupledKernelCheck.
offers : List FirmwareBundleSpec → Bytes → Bool
offers bs chip = any (λ b. is_kernel_bound_for b chip) bs

serves : List FirmwareBundleSpec → Bytes → Bytes → Bool
serves bs chip target =
    any (λ b. is_kernel_bound_for b chip && matches_hardware b (chip ∷ []) target) bs

chips_are_served : List FirmwareBundleSpec → Bytes → List Bytes → Bool
chips_are_served bs target [] = true
chips_are_served bs target (c ∷ cs) =
    let rest = chips_are_served bs target cs in
    if offers bs c && not (serves bs c target) then false else rest

-- CoupledKernelCheck: true where the update is not refused.
unfoldable pub coupled_kernel_check : Manifest → Bytes → List Bytes → Bool
unfolding chips_are_served offers serves
coupled_kernel_check m running chips =
    if is_empty m.kernel_release || m.kernel_release =b running
    then true
    else chips_are_served (firmware_bundle_list m) m.kernel_release chips
