-- ===== src/Otad/Version.antt =====
-- internal/otad/stage.go, otad.go: the comparison of release names.
pub mod Order
use atom_loops.Prelude.{
  ℕ, ◌+◌, ◌-◌, ◌*◌, ◌%◌, Bool, false, Option, none, some, List, [], ◌∷◌, ◌==◌, length, drop,
  if◌then◌else◌,
}
use atom_loops.Prelude.Text.{Bytes, codes, trim_prefix, ◌=b◌}
use atom_loops.Prelude.Int.{ℤ, ltb_ℤ, uint_mod, wrap_int}
use atom_loops.Deployment.Transition.{digits_start}

-- The sum of versionNum, as a bit pattern: the `int` wraps.
digits_sum : ℕ → Bytes → ℕ
digits_sum acc [] = acc
digits_sum acc (c ∷ s) = digits_sum ((acc * 10 + (c - b'0')) % uint_mod) s

-- versionNum; its first loop is that of kcOf.
unfoldable pub version_num : Bytes → Option ℤ
unfolding digits_start digits_sum
version_num v =
    let i = digits_start v (length v) in
    if i == length v then none else some (wrap_int (digits_sum 0 (drop i v)))

unfoldable pub is_downgrade : Bytes → Bytes → Bool
is_downgrade new_v cur_v = elim (version_num new_v) [
  | none ↦ false
  | some n ↦ elim (version_num cur_v) [ none ↦ false | some c ↦ ltb_ℤ n c ]
]

-- sameRelease: one `v` in front is ignored.
unfoldable pub same_release : Bytes → Bytes → Bool
same_release a b = trim_prefix (codes "v") a =b trim_prefix (codes "v") b
