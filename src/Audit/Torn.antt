-- ===== src/Audit/Torn.antt =====
-- A history that was written line by line is read back, also where its last line was cut off.
use mathlib.Core.Path.{subst}
use mathlib.Core.List.{append_assoc, append-nil}
use atom_loops.Prelude.{
  ℕ, ◌≡◌, refl, sym, ap, ◌∙◌, true, false, none, some, List, [], ◌∷◌, ◌++◌, ◌⊎◌, inl, inr,
}
use atom_loops.Prelude.Text.{Bytes, is_space, split}
use atom_loops.Audit.{Event, EventJson, events_of, events_in, event_or_skip}
use atom_loops.Audit.Lines.{
  is_line, is_line-prefix, split-line, split-last, starts, trim_right, trim_space-starts,
  trim_right-keep, trim_right-drop, IsTrimmed, trimmed_lem,
}

-- The JSON of the event: one line with no white space at its ends, that is read back, and no part of it is
-- read as an event.
pub record IsLogged (json : EventJson) (e : Event) (b : Bytes) : Type 0 where
  pub encoded : json.encode e ≡ some b
  pub decoded : json.decode b ≡ some e
  pub line : is_line b ≡ true
  pub begins : starts b ≡ true
  pub last : (u : Bytes) × (c : ℕ) × (b ≡ u ++ c ∷ []) × (is_space c ≡ false)
  pub whole : (p : Bytes) (c : ℕ) (t : Bytes) → b ≡ p ++ c ∷ t → json.decode p ≡ none

-- The events of a history with their lines, the newest first.
abbrev pub Log : Type 0
Log = List (Event × Bytes)

abbrev pub logged : Log → Bytes
logged [] = []
logged ((e, b) ∷ older) = logged older ++ (b ++ 10 ∷ [])

abbrev pub events : Log → List Event
events [] = []
events ((e, b) ∷ older) = events older ++ e ∷ []

abbrev lines : Log → List Bytes
lines [] = []
lines ((e, b) ∷ older) = lines older ++ b ∷ []

abbrev pub AllLogged : EventJson → Log → Type 0
AllLogged json [] = Unit
AllLogged json ((e, b) ∷ older) = IsLogged json e b × AllLogged json older

module _ (json : EventJson) where
  split-logged :
      (l : Log) (q : Bytes) → AllLogged json l → split 10 (logged l ++ q) ≡ lines l ++ split 10 q
  split-logged [] q h = refl
  split-logged ((e, b) ∷ older) q (g, h) =
      ap (split 10) (
        append_assoc (logged older) (b ++ 10 ∷ []) q
        ∙ ap (λ x. logged older ++ x) (append_assoc b (10 ∷ []) q))
      ∙ split-logged older (b ++ 10 ∷ q) h
      ∙ ap (λ x. lines older ++ x) (split-line b q g.line)
      ∙ sym (append_assoc (lines older) (b ∷ []) (split 10 q))

  events_in-cons :
      (e : Event) (b : Bytes) (ls : List Bytes)
      → IsLogged json e b
      → events_in json (b ∷ ls) ≡ e ∷ events_in json ls
  unfolding events_in event_or_skip
  events_in-cons e [] ls g = absurd (let s = g.begins in cc)
  events_in-cons e (c ∷ b) ls g = rw g.decoded refl

  events_in-lines :
      (l : Log) (ls : List Bytes)
      → AllLogged json l
      → events_in json (lines l ++ ls) ≡ events l ++ events_in json ls
  events_in-lines [] ls h = refl
  events_in-lines ((e, b) ∷ older) ls (g, h) =
      ap (events_in json) (append_assoc (lines older) (b ∷ []) ls)
      ∙ events_in-lines older (b ∷ ls) h
      ∙ ap (λ x. events older ++ x) (events_in-cons e b ls g)
      ∙ sym (append_assoc (events older) (e ∷ []) (events_in json ls))

  starts-logged :
      (l : Log) (q : Bytes) → AllLogged json l → starts q ≡ true → starts (logged l ++ q) ≡ true
  starts-logged [] q h s = s
  starts-logged ((e, b) ∷ older) q (g, h) s =
      rw (append_assoc (logged older) (b ++ 10 ∷ []) q)
        (starts-logged older ((b ++ 10 ∷ []) ++ q) h (go b g.begins))
    where
      go : (d : Bytes) → starts d ≡ true → starts ((d ++ 10 ∷ []) ++ q) ≡ true
      go [] k = cc
      go (c ∷ d) k = k

  -- A part of a line behind the history.
  part_lem :
      (l : Log) (q : Bytes)
      → AllLogged json l
      → starts q ≡ true
      → is_line q ≡ true
      → (t : IsTrimmed (logged l) q) × (events_of json (logged l ++ q)
          ≡ events l ++ events_in json (t.kept ∷ []))
  unfolding events_of
  part_lem l q h s n =
      let t = trimmed_lem (logged l) q s in
      (
        t,
        ap (λ x. events_in json (split 10 x))
              (trim_space-starts (logged l ++ q) (starts-logged l q h s) ∙ t.trimmed)
            ∙ ap (events_in json) (
                split-logged l t.kept h
                ∙ ap (λ x. lines l ++ x)
                    (split-last t.kept (is_line-prefix t.kept t.dropped (rw t.parts at n))))
            ∙ events_in-lines l (t.kept ∷ []) h,
      )

  line_at_end :
      (s b : Bytes) (e : Event) → IsLogged json e b → trim_right (s ++ (b ++ 10 ∷ [])) ≡ s ++ b
  line_at_end s b e g =
      let (u, c, p, k) = g.last in
      ap trim_right (sym (append_assoc s b (10 ∷ [])))
      ∙ trim_right-drop (s ++ b) 10 refl
      ∙ rw p (
          ap trim_right (sym (append_assoc s u (c ∷ [])))
          ∙ trim_right-keep (s ++ u) c k
          ∙ append_assoc s u (c ∷ []))

  -- A history that was written to its end is read back.
  pub events_of-logged : (l : Log) → AllLogged json l → events_of json (logged l) ≡ events l
  unfolding events_of events_in
  events_of-logged [] h = refl
  events_of-logged ((e, b) ∷ older) (g, h) =
      ap (λ x. events_in json (split 10 x))
        (trim_space-starts (logged older ++ (b ++ 10 ∷ []))
            (starts-logged older (b ++ 10 ∷ []) h (go b g.begins))
          ∙ line_at_end (logged older) b e g)
      ∙ ap (events_in json)
          (split-logged older b h ∙ ap (λ x. lines older ++ x) (split-last b g.line))
      ∙ events_in-lines older (b ∷ []) h
      ∙ ap (λ x. events older ++ x) (events_in-cons e b [] g)
    where
      go : (d : Bytes) → starts d ≡ true → starts (d ++ 10 ∷ []) ≡ true
      go [] k = cc
      go (c ∷ d) k = k

  kept_lem :
      (e : Event) (b k r : Bytes)
      → IsLogged json e b
      → b ≡ k ++ r
      → starts k ≡ true
      → (events_in json (k ∷ []) ≡ []) ⊎ (events_in json (k ∷ []) ≡ e ∷ [])
  unfolding events_in event_or_skip
  kept_lem e b k [] g p s =
      let q : b ≡ k = p ∙ append-nil k in
      inr (subst (λ x. events_in json (x ∷ []) ≡ e ∷ []) q (events_in-cons e b [] g))
  kept_lem e b [] (c ∷ r) g p s = cc
  kept_lem e b (d ∷ k) (c ∷ r) g p s = inl (rw (g.whole (d ∷ k) c r p) refl)

  starts-prefix :
      (d : ℕ) (q r b : Bytes) → b ≡ (d ∷ q) ++ r → starts b ≡ true → starts (d ∷ q) ≡ true
  starts-prefix d q r b p h = rw p at h

  -- The line of an event that was cut off is skipped, unless it is whole but for its newline.
  pub events_of-torn :
      (l : Log) (e : Event) (b q r : Bytes)
      → AllLogged json l
      → IsLogged json e b
      → b ≡ q ++ r
      → (events_of json (logged l ++ q) ≡ events l)
        ⊎ (events_of json (logged l ++ q) ≡ events l ++ e ∷ [])
  events_of-torn l e b [] r h g p =
      inl (ap (events_of json) (append-nil (logged l)) ∙ events_of-logged l h)
  events_of-torn l e b (d ∷ q) r h g p =
      let s = starts-prefix d q r b p g.begins in
      let n = g.line in
      let (t, v) = part_lem l (d ∷ q) h s (is_line-prefix (d ∷ q) r (rw p at n)) in
      elim (kept_lem e b t.kept (t.dropped ++ r) g
        (p ∙ ap (λ x. x ++ r) t.parts ∙ append_assoc t.kept t.dropped r) t.begins) [
          | inl x ↦ inl (v ∙ ap (λ y. events l ++ y) x ∙ append-nil (events l))
          | inr x ↦ inr (v ∙ ap (λ y. events l ++ y) x)
        ]
