-- ===== src/System/Keeps.antt =====
-- What a sequence of calls keeps wherever it stops.
use mathlib.Core.Path.{subst}
use atom_loops.Prelude.{◌≡◌, refl, sym, Bool, true, false, Option, if◌then◌else◌}
use atom_loops.System.Files.{FilePath, File, Files}
use atom_loops.System.Io.{
  World, Outcome, done, failed, lost, Io, Error, pure, throw, on_error, ◌>>=◌,
}
use atom_loops.System.Triple.{
  Ends, Triple-bind, Triple-attempt, Triple-pure, Triple-throw, Triple-weaken, Keeps,
}

-- A sequence keeps what each of its parts keeps.
module _ (P : Files → Type 0) where
  pub Keeps-bind :
      {A B : Type 0} (k : A → Io B) {m : Io A}
      → Keeps P m
      → ((a : A) → Keeps P (k a))
      → Keeps P (m >>= k)
  Keeps-bind k t h = Triple-bind k t h

  pub Keeps-pure : {A : Type 0} (a : A) → Keeps P (pure a)
  Keeps-pure a = Triple-pure a (λ f h. h)

  pub Keeps-throw : {A : Type 0} (e : Error) → Keeps P (throw {A = A} e)
  Keeps-throw e = Triple-throw e (λ f h. h)

  pub Keeps-if :
      {A : Type 0} (b : Bool) {m n : Io A} → Keeps P m → Keeps P n → Keeps P (if b then m else n)
  Keeps-if true t u = t
  Keeps-if false t u = u

  pub Keeps-on_error :
      {A : Type 0} {m : Io A} {c : Io (Unit {0})} → Keeps P m → Keeps P c → Keeps P (on_error m c)
  Keeps-on_error t u =
      Triple-attempt _ _ t (λ a. Keeps-pure a) (λ e. Keeps-bind _ u (λ _. Keeps-throw e))

  -- A test that lets the sequence go on or ends it.
  pub Keeps-guard : (b : Bool) (e : Error) → Keeps P (if b then pure tt else throw e)
  Keeps-guard b e = Keeps-if b (Keeps-pure tt) (Keeps-throw e)

-- Two things that a sequence keeps.
pub Keeps-both :
    {A : Type 0} {m : Io A} (P Q : Files → Type 0)
    → Keeps P m
    → Keeps Q m
    → Keeps (λ f. P f × Q f) m
Keeps-both {A = A} {m = m} P Q t u = record { at = λ w h. go (m w) (t.at w h.0) (u.at w h.1) }
  where
    go :
        (r : Outcome A × World)
        → Ends P (λ _ f. P f) r
        → Ends Q (λ _ f. Q f) r
        → Ends (λ f. P f × Q f) (λ _ f. P f × Q f) r
    go (done a, w) p q = (p, q)
    go (failed e, w) p q = (p, q)
    go (lost, w) p q = (p, q)

-- A sequence that leaves a file alone keeps what the file is.
pub Keeps-at :
    {A : Type 0} {m : Io A} (q : FilePath) (Q : Option File → Type 0)
    → ((x : Option File) → Keeps (λ f. f q ≡ x) m)
    → Keeps (λ f. Q (f q)) m
Keeps-at q Q k = record {
  at = λ w h.
      (Triple-weaken (λ f e. e) (λ f e. subst Q (sym e) h) (λ _ f e. subst Q (sym e) h)
          (k (w.files q))).at
        w refl;
}
