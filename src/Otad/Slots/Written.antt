-- ===== src/Otad/Slots/Written.antt =====
-- The boot-state file after a write that stopped anywhere.
use atom_loops.Prelude.{◌≡◌, refl, ◌⊎◌, inl, true, Option, none, some, arith, ap, ◌∙◌}
use atom_loops.Prelude.Text.{Bytes}
use atom_loops.Prelude.TextLaws.{is_plain}
use atom_loops.Prelude.Numerals.{IsInt}
use atom_loops.System.Files.{FilePath, join, File, Files, content_at, content_of}
use atom_loops.System.Triple.{
  Triple, Triple-bind, Triple-attempt, Triple-ignore, Triple-pure, Triple-weaken, Keeps,
}
use atom_loops.System.Durable.{Touched, Replaced, Replaced-Touched, replace_lem, settle_lem}
use atom_loops.Otad.BootState.{BootState, marshal, read_state}
use atom_loops.Otad.BootState.RoundTrip.{read_state-marshal}
use atom_loops.Otad.Slots.{write_boot_state, sync_if_possible}

sync-Keeps : (P : Files → Type 0) → Keeps P sync_if_possible
unfolding sync_if_possible
sync-Keeps P =
    Triple-attempt _ _ (settle_lem (λ f p. p))
      (λ _.
        Triple-bind _ (Triple-ignore (settle_lem (λ f p. p)))
          λ _. Triple-ignore (settle_lem (λ f p. p)))
      (λ e. Triple-pure tt (λ f p. p))

-- From the files f₀, wherever the write stops, the path has its old file or the text of the state.
pub write_boot_state_lem :
    (f₀ : Files) (dir name : Bytes) (b : BootState)
    → Triple
        (λ f. f ≡ f₀)
        (write_boot_state (join dir name) b)
        (Touched f₀ (join dir name) (marshal b))
        (λ _ f. Replaced f₀ (join dir name) (marshal b) f)
unfolding write_boot_state
write_boot_state_lem f₀ dir name b =
    Triple-bind _
      (settle_lem (λ f e. record {
        others = λ q k h. ap (λ (g : Files). g q) e;
        target = inl (ap (λ (g : Files). g (join dir name)) e);
      }))
      λ _. replace_lem f₀ (join dir name) (marshal b) refl sync_if_possible (
        Triple-weaken (λ f r. r) (Replaced-Touched f₀ (join dir name) (marshal b)) (λ _ f r. r)
          (sync-Keeps (Replaced f₀ (join dir name) (marshal b))))

abbrev state_in : Option Bytes → Option BootState
state_in none = none
state_in (some text) = some (read_state text)

-- What ReadBootState finds under a path.
abbrev pub state_at : Files → FilePath → Option BootState
state_at f p = state_in (content_at f p)

-- A write of a boot-state whose target has no white space and whose attempts are an `int`, stopped by an
-- error or a loss of power at any call, leaves a file from which the old state (or none, where there
-- was none) or the new one is read; after a success the new one is read.
pub write_boot_state-read :
    (dir name : Bytes) (b : BootState) (old : Option BootState)
    → is_plain b.target ≡ true
    → IsInt b.attempts
    → Triple
        (λ f. state_at f (join dir name) ≡ old)
        (write_boot_state (join dir name) b)
        (λ f. (state_at f (join dir name) ≡ old) ⊎ (state_at f (join dir name) ≡ some b))
        (λ _ f. state_at f (join dir name) ≡ some b)
write_boot_state-read dir name b old plain small = record {
  at = λ w h.
      (Triple-weaken (λ f e. e)
          (λ f t. ground (
            arith,
            t.target,
            ap (λ (x : Option File). state_in (content_of x)),
            read_state-marshal b plain small,
          ))
          (λ _ f r. ap state_in r.target ∙ ap some (read_state-marshal b plain small))
          (write_boot_state_lem w.files dir name b)).at
        w refl;
}
