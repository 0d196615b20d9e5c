-- ===== src/Audit/Lines.antt =====
-- The lines of a text, and its white space at the end.
use mathlib.Core.Path.{subst}
use mathlib.Core.List.{reverse, reverse-append, reverse-reverse, append_assoc, append-nil}
use atom_loops.Prelude.{
  ℕ, ◌≡◌, refl, sym, ap, ◌∙◌, Bool, true, false, not, ◌&&◌, [], ◌∷◌, ◌++◌, arith, ◌==◌, Bool-cases,
  inl, inr,
}
use atom_loops.Prelude.Text.{Bytes, is_space, trim_space, trim_left, split}

-- No newline.
abbrev pub is_line : Bytes → Bool
is_line [] = true
is_line (c ∷ s) = not (c == 10) && is_line s

pub split-line : (l s : Bytes) → is_line l ≡ true → split 10 (l ++ 10 ∷ s) ≡ l ∷ split 10 s
split-line [] s h = refl
split-line (c ∷ l) s h = ground (arith, split-line l s)

pub split-last : (l : Bytes) → is_line l ≡ true → split 10 l ≡ l ∷ []
split-last [] h = refl
split-last (c ∷ l) h = ground (arith, split-last l)

pub is_line-prefix : (p q : Bytes) → is_line (p ++ q) ≡ true → is_line p ≡ true
is_line-prefix [] q h = refl
is_line-prefix (c ∷ p) q h = ground (arith, is_line-prefix p q)

-- The text starts with no white space.
abbrev pub starts : Bytes → Bool
starts [] = false
starts (c ∷ s) = not (is_space c)

pub trim_right : Bytes → Bytes
trim_right s = reverse (trim_left (reverse s))

pub trim_space-starts : (s : Bytes) → starts s ≡ true → trim_space s ≡ trim_right s
unfolding trim_right
trim_space-starts [] h = cc
trim_space-starts (c ∷ s) h = let e : is_space c ≡ false = ground arith in rw e refl

pub trim_right-keep :
    (s : Bytes) (c : ℕ) → is_space c ≡ false → trim_right (s ++ c ∷ []) ≡ s ++ c ∷ []
unfolding trim_right
trim_right-keep s c h =
    rw (reverse-append s (c ∷ []), h, reverse-append (c ∷ []) (reverse s), reverse-reverse s) refl

pub trim_right-drop :
    (s : Bytes) (c : ℕ) → is_space c ≡ true → trim_right (s ++ c ∷ []) ≡ trim_right s
unfolding trim_right
trim_right-drop s c h = rw (reverse-append s (c ∷ []), h) refl

-- A text that starts with no white space, behind another one, keeps a part that starts so.
pub record IsTrimmed (s q : Bytes) : Type 0 where
  pub kept : Bytes
  pub dropped : Bytes
  pub trimmed : trim_right (s ++ q) ≡ s ++ kept
  pub parts : q ≡ kept ++ dropped
  pub begins : starts kept ≡ true

starts-snoc :
    (q : Bytes) (c : ℕ) → starts (q ++ c ∷ []) ≡ true → is_space c ≡ true → starts q ≡ true
starts-snoc [] c h k = ground arith
starts-snoc (d ∷ q) c h k = h

reversed_lem : (s m : Bytes) → starts (reverse m) ≡ true → IsTrimmed s (reverse m)
reversed_lem s [] h = cc
reversed_lem s (c ∷ m) h = elim (Bool-cases (is_space c)) [
  | inl e ↦
      let r = reverse-append (c ∷ []) m in
      let t = reversed_lem s m (starts-snoc (reverse m) c (rw r at h) e) in
      record {
        kept = t.kept;
        dropped = t.dropped ++ c ∷ [];
        trimmed =
            ap (λ x. trim_right (s ++ x)) r
            ∙ ap trim_right (sym (append_assoc s (reverse m) (c ∷ [])))
            ∙ trim_right-drop (s ++ reverse m) c e
            ∙ t.trimmed;
        parts = r ∙ ap (λ x. x ++ c ∷ []) t.parts ∙ append_assoc t.kept t.dropped (c ∷ []);
        begins = t.begins;
      }
  | inr e ↦
      let r = reverse-append (c ∷ []) m in
      record {
        kept = reverse m ++ c ∷ [];
        dropped = [];
        trimmed =
            ap (λ x. trim_right (s ++ x)) r
            ∙ ap trim_right (sym (append_assoc s (reverse m) (c ∷ [])))
            ∙ trim_right-keep (s ++ reverse m) c e
            ∙ append_assoc s (reverse m) (c ∷ []);
        parts = r ∙ sym (append-nil (reverse m ++ c ∷ []));
        begins = rw r at h;
      }
]

pub trimmed_lem : (s q : Bytes) → starts q ≡ true → IsTrimmed s q
trimmed_lem s q h =
    subst (IsTrimmed s) (reverse-reverse q) (reversed_lem s (reverse q) (rw (reverse-reverse q) h))
