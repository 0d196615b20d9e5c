-- ===== src/System/Triple.antt =====
-- What holds of the files at every point where a sequence of calls can stop: a program logic.
use atom_loops.Prelude.{Option, none, some, List, [], ◌∷◌, String}
use atom_loops.System.Files.{Files}
use atom_loops.System.Io.{
  Fault, works, fails, power_loss, Error, World, Outcome, done, failed, lost, Io, pure, throw,
  ◌>>=◌, continue, attempt, handle, call, call_with, run, fresh, ignore, after, label,
}

-- The files where the call stops: `R a` after a result, `I` after an error or a loss of power.
abbrev pub Ends :
    {A : Type 0} → (Files → Type 0) → (A → Files → Type 0) → Outcome A × World → Type 0
Ends I R (done a, w) = R a w.files
Ends I R (failed e, w) = I w.files
Ends I R (lost, w) = I w.files

-- What holds after a call that the files allow.
abbrev pub Allowed : {A : Type 0} → (A → Files → Type 0) → Option (A × Files) → Type 0
Allowed R none = Unit
Allowed R (some (a, f)) = R a f

pub record Triple {A : Type 0} (P : Files → Type 0) (m : Io A) (I : Files → Type 0)
    (R : A → Files → Type 0) : Type 0 where
  pub at : (w : World) → P w.files → Ends I R (m w)

module _ {A : Type 0} {P I : Files → Type 0} {R : A → Files → Type 0} where
  pub Triple-pure : (a : A) → ((f : Files) → P f → R a f) → Triple P (pure a) I R
  Triple-pure a h = record { at = λ w p. h w.files p }

  pub Triple-throw : (e : Error) → ((f : Files) → P f → I f) → Triple P (throw {A = A} e) I R
  Triple-throw e h = record { at = λ w p. h w.files p }

  -- A call, from what it does to the files.
  pub Triple-call :
      (effect : Files → Option (A × Files))
      → ((f : Files) → P f → I f)
      → ((f : Files) → P f → Allowed R (effect f))
      → Triple P (call effect) I R
  unfolding call
  Triple-call effect keep step = record { at = λ w p. go w.faults w p }
    where
      ran : (o : Option (A × Files)) (w : World) → Allowed R o → P w.files → Ends I R (run o w)
      ran none w e p = keep w.files p
      ran (some (a, g)) w e p = e

      go : (s : List Fault) (w : World) → P w.files → Ends I R (call_with s effect w)
      go [] w p = ran (effect w.files) w (step w.files p) p
      go (works ∷ s) w p = ran (effect w.files) (record w { faults = s }) (step w.files p) p
      go (fails ∷ s) w p = keep w.files p
      go (power_loss ∷ s) w p = keep w.files p

module _ {A : Type 0} {I J : Files → Type 0} {R S : A → Files → Type 0} where
  Ends-weaken :
      ((f : Files) → I f → J f)
      → ((a : A) (f : Files) → R a f → S a f)
      → (x : Outcome A × World) → Ends I R x
      → Ends J S x
  Ends-weaken i r (done a, w) h = r a w.files h
  Ends-weaken i r (failed e, w) h = i w.files h
  Ends-weaken i r (lost, w) h = i w.files h

module _ {A : Type 0} {P Q I J : Files → Type 0} {R S : A → Files → Type 0} where
  pub Triple-weaken :
      {m : Io A}
      → ((f : Files) → Q f → P f)
      → ((f : Files) → I f → J f)
      → ((a : A) (f : Files) → R a f → S a f)
      → Triple P m I R
      → Triple Q m J S
  Triple-weaken {m} p i r t = record { at = λ w q. Ends-weaken i r (m w) (t.at w (p w.files q)) }

module _ {A B : Type 0} {I : Files → Type 0} {R : A → Files → Type 0} {S : B → Files → Type 0} where
  Ends-continue :
      (k : A → Io B)
      → ((a : A) → Triple (R a) (k a) I S)
      → (x : Outcome A × World) → Ends I R x
      → Ends I S (continue x.0 k x.1)
  Ends-continue k h (done a, w) e = (h a).at w e
  Ends-continue k h (failed e, w) i = i
  Ends-continue k h (lost, w) i = i

  Ends-handle :
      (k : A → Io B) (c : Error → Io B)
      → ((a : A) → Triple (R a) (k a) I S)
      → ((e : Error) → Triple I (c e) I S)
      → (x : Outcome A × World) → Ends I R x
      → Ends I S (handle x.0 k c x.1)
  Ends-handle k c h g (done a, w) e = (h a).at w e
  Ends-handle k c h g (failed e, w) i = (g e).at w i
  Ends-handle k c h g (lost, w) i = i

module _ {A B : Type 0} {P I : Files → Type 0} {R : A → Files → Type 0}
    {S : B → Files → Type 0} where
  pub Triple-bind :
      {m : Io A} (k : A → Io B)
      → Triple P m I R
      → ((a : A) → Triple (R a) (k a) I S)
      → Triple P (m >>= k) I S
  unfolding ◌>>=◌
  Triple-bind {m} k t h = record { at = λ w p. Ends-continue k h (m w) (t.at w p) }

  pub Triple-attempt :
      {m : Io A} (k : A → Io B) (c : Error → Io B)
      → Triple P m I R
      → ((a : A) → Triple (R a) (k a) I S)
      → ((e : Error) → Triple I (c e) I S)
      → Triple P (attempt m k c) I S
  unfolding attempt
  Triple-attempt {m} k c t h g = record { at = λ w p. Ends-handle k c h g (m w) (t.at w p) }

pub Triple-fresh : {P I : Files → Type 0} → Triple P fresh I (λ n f. P f)
unfolding fresh
Triple-fresh = record { at = λ w p. p }

-- A step that keeps what holds whatever happens.
abbrev pub Keeps : {A : Type 0} → (Files → Type 0) → Io A → Type 0
Keeps P m = Triple P m P (λ _ f. P f)

-- An ignored step is over with its result or its error.
pub Triple-ignore : {A : Type 0} {P : Files → Type 0} {m : Io A} → Keeps P m → Keeps P (ignore m)
Triple-ignore t =
    Triple-attempt _ _ t (λ a. Triple-pure tt (λ f p. p)) (λ e. Triple-pure tt (λ f p. p))

pub Triple-label :
    {A : Type 0} {P I : Files → Type 0} {R : A → Files → Type 0} {m : Io A} (s : String)
    → Triple P m I R
    → Triple P (label s m) I R
Triple-label s t =
    Triple-attempt _ _ t (λ a. Triple-pure a (λ f p. p)) (λ e. Triple-throw _ (λ f p. p))

-- A deferred step keeps what its sequence ends with.
pub Triple-after :
    {A : Type 0} {P I : Files → Type 0} {R : A → Files → Type 0} {m : Io A} {c : Io (Unit {0})}
    → ((a : A) (f : Files) → R a f → I f)
    → Triple P m I R
    → ((a : A) → Keeps (R a) c)
    → Keeps I c
    → Triple P (after m c) I R
Triple-after i t k h =
    Triple-attempt _ _ t
      (λ a.
        Triple-bind _ (Triple-weaken (λ f p. p) (i a) (λ _ f p. p) (Triple-ignore (k a)))
          (λ _. Triple-pure a (λ f p. p)))
      (λ e. Triple-bind _ (Triple-ignore h) (λ _. Triple-throw e (λ f p. p)))
