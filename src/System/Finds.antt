-- ===== src/System/Finds.antt =====
-- What a sequence returns that only reads, with the files that it reads.
use atom_loops.Prelude.{◌≡◌, refl, ap, Option, none, some, String}
use atom_loops.System.Files.{FilePath, File, Files, content_at}
use atom_loops.System.Io.{
  World, Outcome, done, failed, lost, Io, read_file, read_effect, label, ◌>>=◌,
}
use atom_loops.System.Triple.{Ends, Allowed, Triple, Triple-bind, Triple-call, Triple-label, Keeps}
use atom_loops.System.Returns.{Returns}

module _ (f₀ : Files) where
  abbrev Old : Files → Type 0
  Old f = f ≡ f₀

  -- It leaves the files alone, and its result is so.
  abbrev pub Finds : {A : Type 0} → (A → Type 0) → Io A → Type 0
  Finds Q m = Triple Old m Old (λ a f. Old f × Q a)

  pub Finds-read : (p : FilePath) → Finds (λ s. content_at f₀ p ≡ some s) (read_file p)
  unfolding read_file
  Finds-read p = Triple-call _ (λ f h. h) (λ f h. go (f₀ p) f refl h (ap (λ (g : Files). g p) h))
    where
      go :
          (o : Option File) (f : Files)
          → f₀ p ≡ o
          → Old f
          → f p ≡ f₀ p
          → Allowed (λ s g. Old g × (content_at f₀ p ≡ some s)) (read_effect (f p) f)
      go none f e h k = rw (k, e) tt
      go (some x) f e h k = rw (k, e) (h, refl)

  pub Finds-label :
      {A : Type 0} {Q : A → Type 0} {m : Io A} (s : String) → Finds Q m → Finds Q (label s m)
  Finds-label s t = Triple-label s t

  pub Finds-bind :
      {A B : Type 0} {Q : A → Type 0} {R : B → Type 0} {m : Io A} (k : A → Io B)
      → Finds Q m
      → ((a : A) → Q a → Finds R (k a))
      → Finds R (m >>= k)
  Finds-bind k t g = Triple-bind k t (λ a. record { at = λ w h. (g a h.1).at w h.0 })

  -- A step that touches no file.
  pub Finds-Returns :
      {A : Type 0} {Q : A → Type 0} {m : Io A} → Keeps Old m → Returns Q m → Finds Q m
  Finds-Returns {A = A} {Q = Q} {m = m} t r = record { at = λ w h. go w (m w) refl (t.at w h) }
    where
      go :
          (w : World) (x : Outcome A × World)
          → m w ≡ x
          → Ends Old (λ _ f. Old f) x
          → Ends Old (λ a f. Old f × Q a) x
      go w (done a, v) e q = (q, r.at w a (ap (λ y. y.0) e))
      go w (failed x, v) e q = q
      go w (lost, v) e q = q

-- From a world with those files.
pub Finds-done :
    {A : Type 0} {Q : A → Type 0} {m : Io A} (w : World) (a : A)
    → Finds w.files Q m
    → (m w).0 ≡ done a
    → Q a
Finds-done {A = A} {Q = Q} {m = m} w a t e = go (m w) (t.at w refl) e
  where
    go :
        (x : Outcome A × World)
        → Ends (λ f. f ≡ w.files) (λ a f. (f ≡ w.files) × Q a) x
        → x.0 ≡ done a
        → Q a
    go (done b, v) q e = let s : b ≡ a = cc in rw (← s) q.1
    go (failed x, v) q e = cc
    go (lost, v) q e = cc
