-- ===== src/Boot/Ranking/Sorted.antt =====
-- The order of pairs: a permutation, by falling score.
use mathlib.Core.List.{Perm}
use mathlib.Core.List.Perm
use atom_loops.Prelude.{
  ℕ, ◌≤◌, ◌≡◌, refl, ◌∙◌, ◌==◌, List, [], ◌∷◌, arith, ltb, if◌then◌else◌, Bool-cases, inl, inr,
}
use atom_loops.Boot.Ranking.{insert_first, sort_ranked}

module _ {A : Type 0} where
  -- No score is above the first, and so on down.
  abbrev Below : ℕ → List (A × ℕ) → Type 0
  Below n [] = Unit
  Below n ((y, m) ∷ ys) = m ≤ n

  abbrev pub Falls : List (A × ℕ) → Type 0
  Falls [] = Unit
  Falls ((x, n) ∷ xs) = Below n xs × Falls xs

  insert_first-perm : (x : A × ℕ) (xs : List (A × ℕ)) → Perm (insert_first x xs) (x ∷ xs)
  unfolding insert_first
  insert_first-perm (x, n) [] = Perm.refl _
  insert_first-perm (x, n) ((y, m) ∷ ys) = elim (Bool-cases (ltb n m)) [
    | inl e ↦
        rw e
          (Perm.trans (Perm.cons (y, m) (insert_first-perm (x, n) ys)) (Perm.swap (x, n) (y, m) ys))
    | inr e ↦ rw e (Perm.refl _)
  ]

  sort_ranked-perm : (xs : List (A × ℕ)) → Perm (sort_ranked xs) xs
  unfolding sort_ranked
  sort_ranked-perm [] = Perm.refl _
  sort_ranked-perm (x ∷ xs) =
      Perm.trans (insert_first-perm x (sort_ranked xs)) (Perm.cons x (sort_ranked-perm xs))

  Below-insert_first :
      (k : ℕ) (x : A) (n : ℕ) (xs : List (A × ℕ))
      → n ≤ k
      → Below k xs
      → Below k (insert_first (x, n) xs)
  unfolding insert_first
  Below-insert_first k x n [] h b = h
  Below-insert_first k x n ((y, m) ∷ ys) h b = ground arith

  insert_first-Falls :
      (x : A) (n : ℕ) (xs : List (A × ℕ)) → Falls xs → Falls (insert_first (x, n) xs)
  unfolding insert_first
  insert_first-Falls x n [] h = (tt, tt)
  insert_first-Falls x n ((y, m) ∷ ys) h =
      ground (arith, Below-insert_first m x n ys, insert_first-Falls x n ys)

  sort_ranked-Falls : (xs : List (A × ℕ)) → Falls (sort_ranked xs)
  unfolding sort_ranked
  sort_ranked-Falls [] = tt
  sort_ranked-Falls ((x, n) ∷ xs) = insert_first-Falls x n (sort_ranked xs) (sort_ranked-Falls xs)

  -- The pairs of one score, in their order.
  abbrev pub with_score : ℕ → List (A × ℕ) → List A
  with_score k [] = []
  with_score k ((x, n) ∷ xs) = let rest = with_score k xs in if n == k then x ∷ rest else rest

  insert_first-with_score :
      (k n : ℕ) (x : A) (xs : List (A × ℕ))
      → with_score k (insert_first (x, n) xs) ≡ with_score k ((x, n) ∷ xs)
  unfolding insert_first
  insert_first-with_score k n x [] = refl
  insert_first-with_score k n x ((y, m) ∷ ys) = ground (arith, insert_first-with_score k n x ys)

  sort_ranked-with_score :
      (k : ℕ) (xs : List (A × ℕ)) → with_score k (sort_ranked xs) ≡ with_score k xs
  unfolding sort_ranked
  sort_ranked-with_score k [] = refl
  sort_ranked-with_score k ((x, n) ∷ xs) =
      insert_first-with_score k n x (sort_ranked xs) ∙ ground (arith, sort_ranked-with_score k xs)

-- The ranked pairs are those given, each as often, by falling score, and pairs of one score keep their
-- order.
pub sort_ranked_lem :
    {A : Type 0} (xs : List (A × ℕ)) (k : ℕ)
    → Perm (sort_ranked xs) xs
      × Falls (sort_ranked xs)
      × (with_score k (sort_ranked xs) ≡ with_score k xs)
sort_ranked_lem xs k = (sort_ranked-perm xs, sort_ranked-Falls xs, sort_ranked-with_score k xs)
