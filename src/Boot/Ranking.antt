-- ===== src/Boot/Ranking.antt =====
-- boot/root.go: the order in which pairs of devices are tried, by sort.SliceStable.
pub mod Sorted
use atom_loops.Prelude.{ℕ, Bool, List, [], ◌∷◌, ltb, if◌then◌else◌}

-- From the last to the first, so that what stands earlier goes in front of its equals.
unfoldable pub insert_first : {A : Type 0} → A × ℕ → List (A × ℕ) → List (A × ℕ)
insert_first (x, n) [] = (x, n) ∷ []
insert_first (x, n) ((y, m) ∷ ys) =
    let rest = insert_first (x, n) ys in if ltb n m then (y, m) ∷ rest else (x, n) ∷ (y, m) ∷ ys

-- sort.SliceStable
unfoldable pub sort_ranked : {A : Type 0} → List (A × ℕ) → List (A × ℕ)
sort_ranked [] = []
sort_ranked (x ∷ xs) = insert_first x (sort_ranked xs)

abbrev pub pairs_of : {A : Type 0} → List (A × ℕ) → List A
pairs_of [] = []
pairs_of ((x, n) ∷ xs) = x ∷ pairs_of xs
