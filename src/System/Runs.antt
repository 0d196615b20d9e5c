-- ===== src/System/Runs.antt =====
-- What a run that ends with a result went through.
use atom_loops.Prelude.{◌≡◌, refl, ap, sym, ◌∙◌, String}
use atom_loops.System.Io.{
  World, Outcome, done, failed, lost, Io, Error, wrapped, pure, throw, continue, handle, attempt,
  label, ignore, after, ◌>>=◌, ◌>>◌,
}
use atom_loops.System.Triple.{Ends, Keeps}

-- From the world to the next one, with the result.
pub record Ran {A : Type 0} (m : Io A) (w : World) (a : A) (v : World) : Type 0 where
  pub run : m w ≡ (done a, v)

pub Ran-done : {A : Type 0} (m : Io A) (w : World) (a : A) → (m w).0 ≡ done a → Ran m w a (m w).1
Ran-done m w a h = record { run = ap (λ x. (x, (m w).1)) h }

module _ {A B : Type 0} (k : A → Io B) {m : Io A} {w v : World} {b : B} where
  pub Ran-bind : Ran (m >>= k) w b v → (a : A) × (u : World) × Ran m w a u × Ran (k a) u b v
  unfolding ◌>>=◌
  Ran-bind h = go (m w) refl h.run
    where
      go :
          (x : Outcome A × World)
          → m w ≡ x
          → continue x.0 k x.1 ≡ (done b, v)
          → (a : A) × (u : World) × Ran m w a u × Ran (k a) u b v
      go (done a, u) e h = (a, u, record { run = e }, record { run = h })
      go (failed x, u) e h = cc
      go (lost, u) e h = cc

module _ {A : Type 0} {m : Io A} {w v : World} {a : A} where
  pub Ran-label : (s : String) → Ran (label s m) w a v → Ran m w a v
  unfolding attempt
  Ran-label s h = record { run = go (m w) refl h.run }
    where
      go :
          (x : Outcome A × World)
          → m w ≡ x
          → handle x.0 pure (λ e. throw (wrapped s e)) x.1 ≡ (done a, v)
          → m w ≡ (done a, v)
      go (done b, u) e h = e ∙ h
      go (failed x, u) e h = cc
      go (lost, u) e h = cc

  -- The deferred step runs behind the result.
  pub Ran-after :
      (c : Io (Unit {0})) → Ran (after m c) w a v → (u : World) × Ran m w a u × (v ≡ (ignore c u).1)
  unfolding attempt ◌>>=◌
  Ran-after c h = go (m w) refl h.run
    where
      cleaned :
          (b : A) (u : World) (y : Outcome (Unit {0}) × World)
          → m w ≡ (done b, u)
          → continue y.0 (λ _. pure b) y.1 ≡ (done a, v)
          → y ≡ ignore c u
          → (u : World) × Ran m w a u × (v ≡ (ignore c u).1)
      cleaned b u (done t, x) e h y =
          let s : b ≡ a = cc in
          let z : x ≡ v = ap (λ p. p.1) h in
          (u, record { run = rw (← s) e }, sym z ∙ ap (λ p. p.1) y)
      cleaned b u (failed t, x) e h y = cc
      cleaned b u (lost, x) e h y = cc

      refused :
          (x : Error) (y : Outcome (Unit {0}) × World)
          → continue y.0 (λ _. throw x) y.1 ≡ (done a, v)
          → (u : World) × Ran m w a u × (v ≡ (ignore c u).1)
      refused x (done t, z) h = cc
      refused x (failed t, z) h = cc
      refused x (lost, z) h = cc

      go :
          (x : Outcome A × World)
          → m w ≡ x
          → handle x.0 (λ b. ignore c >> pure b) (λ e. ignore c >> throw e) x.1 ≡ (done a, v)
          → (u : World) × Ran m w a u × (v ≡ (ignore c u).1)
      go (done b, u) e h = cleaned b u (ignore c u) e h refl
      go (failed x, u) e h = refused x (ignore c u) h
      go (lost, u) e h = cc

-- What a sequence keeps, however it ends.
pub Keeps-files :
    {A : Type 0} (m : Io A) (w : World) → Keeps (λ f. f ≡ w.files) m → (m w).1.files ≡ w.files
Keeps-files {A} m w t = go (m w) (t.at w refl)
  where
    go :
        (x : Outcome A × World)
        → Ends (λ f. f ≡ w.files) (λ _ f. f ≡ w.files) x
        → x.1.files ≡ w.files
    go (done a, v) h = h
    go (failed e, v) h = h
    go (lost, v) h = h
