-- ===== src/Otad/BootState/RoundTrip.antt =====
-- What is written to the boot-state file is read back.
use atom_loops.Prelude.{
  ◌≡◌, refl, ap, ◌∙◌, Bool, true, false, [], ◌∷◌, ◌++◌, some, Option, none, arith, if◌then◌else◌,
}
use atom_loops.Prelude.Text.{Bytes, codes, split, cut}
use atom_loops.Prelude.TextLaws.{is_plain, trim_space-plain, split-line, decimal_ℤ-plain}
use atom_loops.Prelude.Int.{ℤ, pos}
use atom_loops.Prelude.Numerals.{decimal_ℤ, IsInt, atoi-decimal}
use atom_loops.Otad.BootState.{BootState, no_state, marshal, read_state, read_line, set_field}

target_line :
    (b : BootState) (t : Bytes)
    → is_plain t ≡ true
    → read_line b (codes "target=" ++ t) ≡ record b { target = t }
unfolding read_line
target_line b t h = rw (trim_space-plain (codes "target=" ++ t) h) refl

trial_line :
    (b : BootState) (x : Bool)
    → read_line b (codes "trial=" ++ (if x then b'1' else b'0') ∷ []) ≡ record b { trial = x }
unfolding read_line
trial_line b true = refl
trial_line b false = refl

abbrev use_field : BootState → Option (Bytes × Bytes) → BootState
use_field b none = b
use_field b (some (k, v)) = set_field b k v

read_line-plain :
    (b : BootState) (l : Bytes) → is_plain l ≡ true → read_line b l ≡ use_field b (cut b'=' l)
unfolding read_line
read_line-plain b l h = ground (arith, trim_space-plain l h)

attempts_line :
    (b : BootState) (n : ℤ)
    → IsInt n
    → read_line b (codes "attempts=" ++ decimal_ℤ n) ≡ record b { attempts = n }
attempts_line b n h =
    read_line-plain b (codes "attempts=" ++ decimal_ℤ n) (decimal_ℤ-plain n)
    ∙ unfold set_field in ap (λ (r : ℤ × Bool). record b { attempts = r.0 }) (atoi-decimal n h)

module _ (b : BootState) (plain : is_plain b.target ≡ true) (small : IsInt b.attempts) where
  abbrev target_text : Bytes
  target_text = codes "target=" ++ b.target

  abbrev trial_text : Bytes
  trial_text = codes "trial=" ++ (if b.trial then b'1' else b'0') ∷ []

  abbrev attempts_text : Bytes
  attempts_text = codes "attempts=" ++ decimal_ℤ b.attempts

  trial-plain : (x : Bool) → is_plain (codes "trial=" ++ (if x then b'1' else b'0') ∷ []) ≡ true
  trial-plain true = refl
  trial-plain false = refl

  lines : split 10 (marshal b) ≡ target_text ∷ trial_text ∷ attempts_text ∷ [] ∷ []
  unfolding marshal
  lines =
      split-line target_text (trial_text ++ 10 ∷ (attempts_text ++ 10 ∷ [])) plain
      ∙ ap (λ ls. target_text ∷ ls)
          (split-line trial_text (attempts_text ++ 10 ∷ []) (trial-plain b.trial)
            ∙ ap (λ ls. trial_text ∷ ls) (split-line attempts_text [] (decimal_ℤ-plain b.attempts)))

  -- A state whose target has no white space, and whose attempts are an `int`, is read back from the
  -- file that it is written to.
  pub read_state-marshal : read_state (marshal b) ≡ b
  unfolding read_state
  read_state-marshal = rw (
    lines,
    target_line no_state b.target plain,
    trial_line (record no_state { target = b.target }) b.trial,
    attempts_line (record { target = b.target; trial = b.trial; attempts = pos 0 }) b.attempts
        small,
  )
