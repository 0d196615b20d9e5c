-- ===== src/Agent/History/Bounded.antt =====
-- The history stays short, and ends with the release that runs.
use atom_loops.Prelude.{
  ◌-◌, ◌≤◌, ◌≡◌, ℕ, zero, suc, true, List, [], ◌∷◌, ◌++◌, arith, length, length-append, drop, ltb,
  Bool-cases, inl, inr,
}
use atom_loops.Prelude.Text.{=b_refl}
use atom_loops.Agent.History.{HistoryEntry, last_is, recorded_entries, history_limit}

length-drop : (n : ℕ) (es : List HistoryEntry) → length (drop n es) ≡ length es - n
length-drop zero es = omega arith
length-drop (suc n) [] = omega arith
length-drop (suc n) (e ∷ es) = omega (arith, length-drop n es)

last_is-append :
    (es : List HistoryEntry) (e : HistoryEntry) → last_is e.version e.build (es ++ e ∷ []) ≡ true
unfolding last_is
last_is-append [] e = rw (=b_refl e.version, =b_refl e.build)
last_is-append (x ∷ []) e = rw (=b_refl e.version, =b_refl e.build)
last_is-append (x ∷ y ∷ es) e = last_is-append (y ∷ es) e

last_is-drop :
    (n : ℕ) (es : List HistoryEntry) (e : HistoryEntry)
    → n ≤ length es
    → last_is e.version e.build (drop n (es ++ e ∷ [])) ≡ true
last_is-drop zero es e h = last_is-append es e
last_is-drop (suc n) [] e h = absurd (omega arith)
last_is-drop (suc n) (x ∷ es) e h = last_is-drop n es e (omega arith)

-- A history to which a release is added has at most a hundred entries, and its last entry is that of the
-- release, so that the same release is not added again.
pub recorded_entries_lem :
    (e : HistoryEntry) (es : List HistoryEntry)
    → (length (recorded_entries e es) ≤ history_limit)
      × (last_is e.version e.build (recorded_entries e es) ≡ true)
unfolding recorded_entries
recorded_entries_lem e es = elim (Bool-cases (ltb history_limit (length (es ++ e ∷ [])))) [
  | inl h ↦ rw h (
    omega (arith, length-drop (length (es ++ e ∷ []) - history_limit) (es ++ e ∷ [])),
    last_is-drop (length (es ++ e ∷ []) - history_limit) es e
        (omega (arith, length-append {0} es (e ∷ []))),
  )
  | inr h ↦ rw h (ground arith, last_is-append es e)
]
