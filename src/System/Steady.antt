-- ===== src/System/Steady.antt =====
-- What a loss of power leaves of a sequence of calls where no call fails.
use mathlib.Core.Path.{subst}
use atom_loops.Prelude.{◌≡◌, Bool, true, false, Option, none, some, List, [], ◌∷◌, ap, sym, String}
use atom_loops.System.Files.{FilePath, File, Files, update}
use atom_loops.System.Io.{
  Fault, works, fails, power_loss, World, Outcome, done, failed, lost, Io, Error, pure, throw,
  continue, attempt, handle, ◌>>=◌, call, call_with, run, ignore, label, rename, settle, found,
  present, stat, remove, remove_effect,
}

-- The schedule names no failure, and a loss of power only where the first argument says so.
abbrev pub is_steady : Bool → List Fault → Bool
is_steady loss [] = true
is_steady loss (works ∷ s) = is_steady loss s
is_steady loss (fails ∷ s) = false
is_steady loss (power_loss ∷ s) = loss

-- The files where the sequence stops: `R a` after a result and `E` after an error, with a steady
-- schedule left, and `I` after a loss of power.
abbrev pub Stops :
    {A : Type 0}
    → Bool
    → (Files → Type 0)
    → (Files → Type 0)
    → (A → Files → Type 0)
    → Outcome A × World
    → Type 0
Stops loss I E R (done a, w) = (is_steady loss w.faults ≡ true) × R a w.files
Stops loss I E R (failed e, w) = (is_steady loss w.faults ≡ true) × E w.files
Stops loss I E R (lost, w) = I w.files

pub record Steady {A : Type 0} (loss : Bool) (P : Files → Type 0) (m : Io A) (I E : Files → Type 0)
    (R : A → Files → Type 0) : Type 0 where
  pub at : (w : World) → is_steady loss w.faults ≡ true → P w.files → Stops loss I E R (m w)

-- What holds after a call that the files allow, or of the files that do not allow it.
abbrev pub Tried :
    {A : Type 0} → (Files → Type 0) → (A → Files → Type 0) → Files → Option (A × Files) → Type 0
Tried E R f none = E f
Tried E R f (some (a, g)) = R a g

module _ {A : Type 0} {loss : Bool} {P I E : Files → Type 0} {R : A → Files → Type 0} where
  pub Steady-pure : (a : A) → ((f : Files) → P f → R a f) → Steady loss P (pure a) I E R
  Steady-pure a h = record { at = λ w s p. (s, h w.files p) }

  pub Steady-throw : (e : Error) → ((f : Files) → P f → E f) → Steady loss P (throw {A = A} e) I E R
  Steady-throw e h = record { at = λ w s p. (s, h w.files p) }

  pub Steady-call :
      (effect : Files → Option (A × Files))
      → (loss ≡ true → (f : Files) → P f → I f)
      → ((f : Files) → P f → Tried E R f (effect f))
      → Steady loss P (call effect) I E R
  unfolding call
  Steady-call effect keep step = record { at = λ w s p. go w.faults w s s p }
    where
      ran :
          (o : Option (A × Files)) (w : World)
          → is_steady loss w.faults ≡ true
          → Tried E R w.files o
          → Stops loss I E R (run o w)
      ran none w s t = (s, t)
      ran (some (a, g)) w s t = (s, t)

      go :
          (l : List Fault) (w : World)
          → is_steady loss w.faults ≡ true
          → is_steady loss l ≡ true
          → P w.files
          → Stops loss I E R (call_with l effect w)
      go [] w t s p = ran (effect w.files) w t (step w.files p)
      go (works ∷ l) w t s p = ran (effect w.files) (record w { faults = l }) s (step w.files p)
      go (fails ∷ l) w t s p = cc
      go (power_loss ∷ l) w t s p = keep s w.files p

module _ {A B : Type 0} {loss : Bool} {I E : Files → Type 0} {R : A → Files → Type 0}
    {S : B → Files → Type 0} where
  continue_lem :
      (k : A → Io B)
      → ((a : A) → Steady loss (R a) (k a) I E S)
      → (x : Outcome A × World) → Stops loss I E R x
      → Stops loss I E S (continue x.0 k x.1)
  continue_lem k h (done a, w) (s, r) = (h a).at w s r
  continue_lem k h (failed e, w) (s, r) = (s, r)
  continue_lem k h (lost, w) i = i

module _ {A B : Type 0} {loss : Bool} {I E F : Files → Type 0} {R : A → Files → Type 0}
    {S : B → Files → Type 0} where
  handle_lem :
      (k : A → Io B) (c : Error → Io B)
      → ((a : A) → Steady loss (R a) (k a) I F S)
      → ((e : Error) → Steady loss E (c e) I F S)
      → (x : Outcome A × World) → Stops loss I E R x
      → Stops loss I F S (handle x.0 k c x.1)
  handle_lem k c h g (done a, w) (s, r) = (h a).at w s r
  handle_lem k c h g (failed e, w) (s, r) = (g e).at w s r
  handle_lem k c h g (lost, w) i = i

  pub Steady-attempt :
      {P : Files → Type 0} {m : Io A} (k : A → Io B) (c : Error → Io B)
      → Steady loss P m I E R
      → ((a : A) → Steady loss (R a) (k a) I F S)
      → ((e : Error) → Steady loss E (c e) I F S)
      → Steady loss P (attempt m k c) I F S
  unfolding attempt
  Steady-attempt {m = m} k c t h g = record { at = λ w s p. handle_lem k c h g (m w) (t.at w s p) }

module _ {A B : Type 0} {loss : Bool} {P I E : Files → Type 0} {R : A → Files → Type 0}
    {S : B → Files → Type 0} where
  pub Steady-bind :
      {m : Io A} (k : A → Io B)
      → Steady loss P m I E R
      → ((a : A) → Steady loss (R a) (k a) I E S)
      → Steady loss P (m >>= k) I E S
  unfolding ◌>>=◌
  Steady-bind {m} k t h = record { at = λ w s p. continue_lem k h (m w) (t.at w s p) }

module _ {A : Type 0} {loss : Bool} {I E : Files → Type 0} {R : A → Files → Type 0} where
  -- Nothing is left to show where the sequence does not start.
  pub Steady-never : (m : Io A) → Steady loss (λ f. ⊥) m I E R
  Steady-never m = record { at = λ w s p. absurd p }

module _ {loss : Bool} {P I E : Files → Type 0} where
  pub Steady-rename :
      {R : Files → Type 0} (p q : FilePath) (a : File)
      → ((f : Files) → P f → f p ≡ some a)
      → (loss ≡ true → (f : Files) → P f → I f)
      → ((f : Files) → P f → R (update (update f p none) q (some a)))
      → Steady loss P (rename p q) I E (λ _ f. R f)
  unfolding rename
  Steady-rename {R} p q a from keep step = Steady-call _ keep (λ f h. rw (from f h) (step f h))

  pub Steady-rename_missing :
      {R : Files → Type 0} (p q : FilePath)
      → ((f : Files) → P f → f p ≡ none)
      → (loss ≡ true → (f : Files) → P f → I f)
      → ((f : Files) → P f → E f)
      → Steady loss P (rename p q) I E (λ _ f. R f)
  unfolding rename
  Steady-rename_missing {R} p q from keep step =
      Steady-call _ keep (λ f h. rw (from f h) (step f h))

  pub Steady-settle :
      (loss ≡ true → (f : Files) → P f → I f) → Steady loss P settle I E (λ _ f. P f)
  unfolding settle
  Steady-settle keep = Steady-call _ keep (λ f h. h)

  pub Steady-found :
      (p : FilePath) (o : Option File)
      → ((f : Files) → P f → f p ≡ o)
      → (loss ≡ true → (f : Files) → P f → I f)
      → Steady loss P (found p) I E (λ b f. P f × (present o ≡ b))
  unfolding found stat
  Steady-found p o from keep =
      Steady-attempt {E = λ f. ⊥} {R = λ x f. P f × (x ≡ o)} _ _
        (Steady-call _ keep (λ f h. (h, from f h)))
        (λ x. Steady-pure _ (λ f h. (h.0, ap present (sym h.1)))) (λ e. Steady-never _)

-- An ignored call, where the files after it are known whether they allow it or not.
module _ {A : Type 0} {loss : Bool} {P I E R : Files → Type 0} where
  pub Steady-ignore :
      {m : Io A} → Steady loss P m I R (λ _ f. R f) → Steady loss P (ignore m) I E (λ _ f. R f)
  Steady-ignore t =
      Steady-attempt _ _ t (λ _. Steady-pure _ (λ f h. h)) (λ _. Steady-pure _ (λ f h. h))

module _ {A : Type 0} {loss : Bool} {P I E : Files → Type 0} {R : A → Files → Type 0} where
  pub Steady-label :
      (s : String) {m : Io A} → Steady loss P m I E R → Steady loss P (label s m) I E R
  Steady-label s t =
      Steady-attempt _ _ t (λ a. Steady-pure _ (λ f h. h)) (λ e. Steady-throw _ (λ f h. h))

module _ {loss : Bool} {P I : Files → Type 0} where
  -- A removal that may find nothing, of a file that does not matter.
  pub Steady-remove :
      (p : FilePath)
      → ((f : Files) → P f → P (update f p none))
      → (loss ≡ true → (f : Files) → P f → I f)
      → Steady loss P (remove p) I P (λ _ f. P f)
  unfolding remove
  Steady-remove p step keep = Steady-call _ keep (λ f h. go (f p) f h)
    where
      go : (o : Option File) (f : Files) → P f → Tried P (λ _ g. P g) f (remove_effect p o f)
      go none f h = h
      go (some x) f h = step f h

module _ {A : Type 0} {loss : Bool} {P I E : Files → Type 0} {R : A → Files → Type 0} where
  -- A test for a file whose presence is known.
  pub Steady-found_bind :
      (p : FilePath) (o : Option File) (k : Bool → Io A)
      → ((f : Files) → P f → f p ≡ o)
      → (loss ≡ true → (f : Files) → P f → I f)
      → Steady loss P (k (present o)) I E R
      → Steady loss P (found p >>= k) I E R
  Steady-found_bind p o k from keep t = Steady-bind _ (Steady-found p o from keep) λ b. record {
    at = λ w s h. subst (λ (c : Bool). Stops loss I E R (k c w)) h.1 (t.at w s h.0);
  }
