-- ===== src/Audit/Appended.antt =====
-- The history after an append that stopped anywhere.
use mathlib.Core.List.{append_assoc}
use atom_loops.Prelude.{
  ℕ, zero, suc, ◌≡◌, refl, sym, ap, ◌∙◌, Option, none, some, List, [], ◌∷◌, ◌++◌, take, drop, ◌⊎◌,
  inl, inr,
}
use atom_loops.Prelude.Text.{Bytes}
use atom_loops.System.Files.{FilePath, File, Files, =p_refl}
use atom_loops.System.Io.{append, append_effect, open_append, open_effect, ◌>>=◌}
use atom_loops.System.Triple.{
  Allowed, Triple, Triple-call, Triple-bind, Triple-weaken, Triple-after, Triple-fresh, Keeps,
}
use atom_loops.System.Durable.{settle_lem}
use atom_loops.Audit.{Event, EventJson, append_event, append_parts, encoded_event, events_of}
use atom_loops.Audit.Torn.{
  IsLogged, Log, logged, events, AllLogged, events_of-logged, events_of-torn,
}

abbrev text_in : Option File → Bytes
text_in none = []
text_in (some x) = x.content

-- The text of a history, empty where there is no file, and the events that Read finds in it.
abbrev pub text_at : Files → FilePath → Bytes
text_at f p = text_in (f p)

abbrev pub history_at : EventJson → Files → FilePath → List Event
history_at json f p = events_of json (text_at f p)

abbrev Holds : FilePath → Bytes → Files → Type 0
Holds p s f = text_at f p ≡ s

module _ (p : FilePath) (T : Bytes) where
  opened_lem : Keeps (Holds p T) (open_append p)
  unfolding open_append
  opened_lem = Triple-bind _ Triple-fresh λ n. Triple-call _ (λ f h. h) λ f h. go n f (f p) refl h
    where
      go :
          (n : ℕ) (f : Files) (o : Option File)
          → f p ≡ o
          → Holds p T f
          → Allowed (λ _ g. Holds p T g) (open_effect n p o f)
      go n f none e h = rw (=p_refl p) (ap text_in (sym e) ∙ h)
      go n f (some x) e h = h

  append_lem : (s : Bytes) → Triple (Holds p T) (append p s) (Holds p T) (λ _ f. Holds p (T ++ s) f)
  unfolding append
  append_lem s = Triple-call _ (λ f h. h) λ f h. go f (f p) refl h
    where
      go :
          (f : Files) (o : Option File)
          → f p ≡ o
          → Holds p T f
          → Allowed (λ _ g. Holds p (T ++ s) g) (append_effect p s o f)
      go f none e h = tt
      go f (some x) e h = rw (=p_refl p) (ap (λ y. y ++ s) (ap text_in (sym e) ∙ h))

-- What is written of a line and its newline, and what is not.
take-drop : (n : ℕ) (s : Bytes) → take n s ++ drop n s ≡ s
take-drop zero s = refl
take-drop (suc n) [] = refl
take-drop (suc n) (c ∷ s) = ap (λ x. c ∷ x) (take-drop n s)

take_part :
    (n : ℕ) (b : Bytes)
    → ((r : Bytes) × (b ≡ take n (b ++ 10 ∷ []) ++ r)) ⊎ (take n (b ++ 10 ∷ []) ≡ b ++ 10 ∷ [])
take_part zero b = inl (b, refl)
take_part (suc zero) [] = inr refl
take_part (suc (suc n)) [] = inr refl
take_part (suc n) (c ∷ b) = elim (take_part n b) [
  | inl x ↦ inl (x.0, ap (λ y. c ∷ y) x.1)
  | inr e ↦ inr (ap (λ y. c ∷ y) e)
]

module _ (json : EventJson) (p : FilePath) (n : ℕ) (l : Log) (e : Event) (b : Bytes)
    (h : AllLogged json l) (g : IsLogged json e b) where
  abbrev Recorded : Files → Type 0
  Recorded f = history_at json f p ≡ events l ++ e ∷ []

  abbrev OldOrRecorded : Files → Type 0
  OldOrRecorded f = (history_at json f p ≡ events l) ⊎ (history_at json f p ≡ events l ++ e ∷ [])

  old_lem : (f : Files) → text_at f p ≡ logged l → OldOrRecorded f
  old_lem f t = inl (ap (events_of json) t ∙ events_of-logged json l h)

  whole_lem : (f : Files) (s : Bytes) → s ≡ b ++ 10 ∷ [] → text_at f p ≡ logged l ++ s → Recorded f
  whole_lem f s q t =
      ap (events_of json) (t ∙ ap (λ x. logged l ++ x) q)
      ∙ events_of-logged json ((e, b) ∷ l) (g, h)

  part_lem : (f : Files) → text_at f p ≡ logged l ++ take n (b ++ 10 ∷ []) → OldOrRecorded f
  part_lem f t = elim (take_part n b) [
    | inl (r, q) ↦ elim (events_of-torn json l e b (take n (b ++ 10 ∷ [])) r h g q) [
      | inl x ↦ inl (ap (events_of json) t ∙ x)
      | inr x ↦ inr (ap (events_of json) t ∙ x)
    ]
    | inr q ↦ inr (whole_lem f (take n (b ++ 10 ∷ [])) q t)
  ]

  parts_lem :
      Triple
        (Holds p (logged l))
        (append_parts json p n (b ++ 10 ∷ []))
        OldOrRecorded
        (λ _ f. Recorded f)
  unfolding append_parts
  parts_lem =
      let s = b ++ 10 ∷ [] in
      Triple-bind _
        (Triple-weaken (λ f t. t) old_lem (λ _ f t. t) (append_lem p (logged l) (take n s)))
        (λ _.
          Triple-weaken (λ f t. t) part_lem
            (λ _ f t. whole_lem f s refl (
              t
              ∙ append_assoc (logged l) (take n s) (drop n s)
              ∙ ap (λ x. logged l ++ x) (take-drop n s)))
            (append_lem p (logged l ++ take n s) (drop n s)))

  written_lem :
      Triple (Holds p (logged l)) (append_event json p n e) OldOrRecorded (λ _ f. Recorded f)
  unfolding append_event encoded_event ◌>>=◌
  written_lem = rw g.encoded (
      Triple-bind _ (settle_lem old_lem) λ _.
        Triple-bind _ (Triple-weaken (λ f t. t) old_lem (λ _ f t. t) (opened_lem p (logged l))) λ _.
          Triple-after (λ _ f t. inr t) parts_lem (λ _. settle_lem (λ f t. t))
            (settle_lem (λ f t. t)))

-- An append to a history of whole lines that is stopped at any call, also between the two parts of the
-- write, leaves a history from which Read finds the old events, or these and the new one; an append that
-- succeeds leaves the latter. The line of each event is read back, and no part of it is read as an event.
pub append_event-history :
    (json : EventJson) (p : FilePath) (n : ℕ) (l : Log) (e : Event) (b : Bytes)
    → AllLogged json l
    → IsLogged json e b
    → Triple
        (λ f. text_at f p ≡ logged l)
        (append_event json p n e)
        (λ f. (history_at json f p ≡ events l) ⊎ (history_at json f p ≡ events l ++ e ∷ []))
        (λ _ f. history_at json f p ≡ events l ++ e ∷ [])
append_event-history json p n l e b h g = written_lem json p n l e b h g
