-- ===== src/System/Returns.antt =====
-- What a sequence of calls returns where it returns, whatever the files and the faults are.
use atom_loops.Prelude.{◌≡◌, refl, Bool, true, false, String, if◌then◌else◌}
use atom_loops.System.Io.{
  World, Outcome, done, failed, lost, Io, Error, pure, throw, continue, attempt, handle, ◌>>=◌,
  label, ignore, after, ◌>>◌, on_error,
}

pub record Returns {A : Type 0} (Q : A → Type 0) (m : Io A) : Type 0 where
  pub at : (w : World) (a : A) → (m w).0 ≡ done a → Q a

module _ {A : Type 0} (Q : A → Type 0) where
  pub Returns-throw : (e : Error) → Returns Q (throw e)
  Returns-throw e = record { at = λ w a h. cc }

  done-Returns : (a b : A) → Q a → done a ≡ done b → Q b
  done-Returns a b q h = let e : a ≡ b = cc in rw (← e) q

  pub Returns-pure : (a : A) → Q a → Returns Q (pure a)
  Returns-pure a q = record { at = λ w b h. done-Returns a b q h }

  pub Returns-if :
      (b : Bool) (m n : Io A)
      → (b ≡ true → Returns Q m)
      → (b ≡ false → Returns Q n)
      → Returns Q (if b then m else n)
  Returns-if true m n h k = h refl
  Returns-if false m n h k = k refl

module _ {A B : Type 0} (Q : B → Type 0) (k : A → Io B) where
  continue_lem :
      (x : Outcome A × World)
      → ((a : A) → x.0 ≡ done a → Returns Q (k a))
      → (b : B) → (continue x.0 k x.1).0 ≡ done b
      → Q b
  continue_lem (done a, w) h b e = (h a refl).at w b e
  continue_lem (failed x, w) h b e = cc
  continue_lem (lost, w) h b e = cc

  pub Returns-bind : (m : Io A) → ((a : A) → Returns Q (k a)) → Returns Q (m >>= k)
  unfolding ◌>>=◌
  Returns-bind m h = record { at = λ w b e. continue_lem (m w) (λ a _. h a) b e }

  -- The rest may rely on what the first part returns.
  pub Returns-bind_with :
      {P : A → Type 0} {m : Io A}
      → Returns P m
      → ((a : A) → P a → Returns Q (k a))
      → Returns Q (m >>= k)
  unfolding ◌>>=◌
  Returns-bind_with {m = m} t h = record {
    at = λ w b e. continue_lem (m w) (λ a d. h a (t.at w a d)) b e;
  }

  handle_lem :
      (c : Error → Io B) (x : Outcome A × World)
      → ((a : A) → x.0 ≡ done a → Returns Q (k a))
      → ((e : Error) → Returns Q (c e))
      → (b : B) → (handle x.0 k c x.1).0 ≡ done b
      → Q b
  handle_lem c (done a, w) h g b e = (h a refl).at w b e
  handle_lem c (failed x, w) h g b e = (g x).at w b e
  handle_lem c (lost, w) h g b e = cc

  pub Returns-attempt :
      {P : A → Type 0} {m : Io A} (c : Error → Io B)
      → Returns P m
      → ((a : A) → P a → Returns Q (k a))
      → ((e : Error) → Returns Q (c e))
      → Returns Q (attempt m k c)
  unfolding attempt
  Returns-attempt {m = m} c t h g = record {
    at = λ w b e. handle_lem c (m w) (λ a d. h a (t.at w a d)) g b e;
  }

-- Of any sequence.
abbrev pub Any : {A : Type 0} → A → Type 0
Any a = Unit

pub Returns-Any : {A : Type 0} (m : Io A) → Returns Any m
Returns-Any m = record { at = λ w a e. tt }

module _ {A : Type 0} (Q : A → Type 0) where
  pub Returns-label : (s : String) {m : Io A} → Returns Q m → Returns Q (label s m)
  Returns-label s t =
      Returns-attempt Q pure (λ e. throw _) t (λ a q. Returns-pure Q a q) (λ e. Returns-throw Q _)

  pub Returns-on_error : (c : Io (Unit {0})) {m : Io A} → Returns Q m → Returns Q (on_error m c)
  Returns-on_error c t =
      Returns-attempt Q pure (λ e. c >> throw e) t (λ a q. Returns-pure Q a q)
        (λ e. Returns-bind Q (λ _. throw e) c (λ _. Returns-throw Q e))

  pub Returns-after : (c : Io (Unit {0})) {m : Io A} → Returns Q m → Returns Q (after m c)
  Returns-after c t =
      Returns-attempt Q _ _ t
        (λ a q. Returns-bind Q (λ _. pure a) (ignore c) (λ _. Returns-pure Q a q))
        (λ e. Returns-bind Q (λ _. throw e) (ignore c) (λ _. Returns-throw Q e))
