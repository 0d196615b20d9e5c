-- ===== src/Prelude/Sorting.antt =====
-- sort.Strings: texts in the order of their bytes.
use mathlib.Core.Path.{◌≡◌, refl}
use mathlib.Core.Bool.{Bool, true, false, ◌&&◌}
use mathlib.Core.List.{List, [], ◌∷◌}
use native.Mathlib.Omega.{arith}
use atom_loops.Prelude.Lists.{all}
use atom_loops.Prelude.Tests.{if◌then◌else◌}
use atom_loops.Prelude.Text.{Bytes, lt_bytes}

insert_text : Bytes → List Bytes → List Bytes
insert_text x [] = x ∷ []
insert_text x (y ∷ ys) =
    let rest = insert_text x ys in if lt_bytes y x then y ∷ rest else x ∷ y ∷ ys

unfoldable pub sort_texts : List Bytes → List Bytes
unfolding insert_text
sort_texts [] = []
sort_texts (x ∷ xs) = insert_text x (sort_texts xs)

all-insert_text :
    (p : Bytes → Bool) (x : Bytes) (ys : List Bytes) → all p (insert_text x ys) ≡ p x && all p ys
unfolding insert_text
all-insert_text p x [] = refl
all-insert_text p x (y ∷ ys) = go (lt_bytes y x) (all-insert_text p x ys)
  where
    swapped : (b c r : Bool) → b && (c && r) ≡ c && (b && r)
    swapped b c r = ground arith

    go :
        (b : Bool)
        → all p (insert_text x ys) ≡ p x && all p ys
        → all p (if b then y ∷ insert_text x ys else x ∷ y ∷ ys) ≡ p x && all p (y ∷ ys)
    go true h = rw h (swapped (p y) (p x) (all p ys))
    go false h = refl

-- A test holds of the sorted texts where it holds of the texts.
pub all-sort_texts : (p : Bytes → Bool) (xs : List Bytes) → all p (sort_texts xs) ≡ all p xs
unfolding sort_texts
all-sort_texts p [] = refl
all-sort_texts p (x ∷ xs) = rw (all-insert_text p x (sort_texts xs), all-sort_texts p xs) refl
