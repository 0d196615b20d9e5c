-- ===== src/Otad/Counter/Advance.antt =====
-- The counter never falls, wherever the process that advances it ends.
use mathlib.Core.Path.{subst}
use mathlib.Core.Option.{some-injective}
use atom_loops.Prelude.{
  ℕ, ◌≡◌, ◌<◌, refl, sym, ◌⊎◌, inl, Bool, true, false, Option, none, some, List, [], ◌∷◌, arith, ap,
  leb, if◌then◌else◌, ◌∙◌,
}
use atom_loops.Prelude.Text.{Bytes, codes, trim_space}
use atom_loops.Prelude.TextLaws.{trim_space-plain, longer-ne, decimal-plain}
use atom_loops.Prelude.Int.{uint_mod}
use atom_loops.Prelude.Numerals.{
  Parsed, number, syntax, range, parse_uint, decimal, parse_uint-decimal,
}
use atom_loops.System.Files.{
  FilePath, join, File, Files, suffixed, content_at, content_of, ◌=p◌, =p_refl,
}
use atom_loops.System.Io.{
  World, Outcome, rename, call, read_file, attempt, pure, write_new, write, write_effect,
  rename_effect, truncate_effect, read_effect, handle, run, call_with, Fault, works, fails,
  power_loss,
}
use atom_loops.System.Triple.{
  Ends, Allowed, Triple, Triple-bind, Triple-pure, Triple-call, Triple-weaken, Triple-fresh,
}
use atom_loops.System.Durable.{settle_lem}
use atom_loops.Otad.Counter.{parsed, absent, read_counter, put_counter, advance_counter}

abbrev value_of : Parsed → Option ℕ
value_of (number n) = some n
value_of syntax = none
value_of range = none

abbrev value_in : Option Bytes → Option ℕ
value_in none = some 0
value_in (some b) = value_of (parse_uint (trim_space b))

-- The value that the files hold: 0 where there is no file, none where the text is no number.
abbrev pub counter_at : Files → FilePath → Option ℕ
counter_at f p = value_in (content_at f p)

abbrev ReadAs : FilePath → Files → ℕ → Files → Type 0
ReadAs p f₀ n f = (f ≡ f₀) × (counter_at f₀ p ≡ some n)

module _ (p : FilePath) (f₀ : Files) where
  parsed_lem :
      (x : Parsed) (w : World)
      → w.files ≡ f₀
      → value_of x ≡ counter_at f₀ p
      → Ends (λ f. f ≡ f₀) (ReadAs p f₀) (parsed x w)
  unfolding parsed
  parsed_lem (number n) w e h = (e, sym h)
  parsed_lem syntax w e h = e
  parsed_lem range w e h = e

  -- What follows the read of the file.
  abbrev after_read : Outcome Bytes × World → Outcome ℕ × World
  after_read x = handle x.0 (λ b. parsed (parse_uint (trim_space b))) absent x.1

  ran_lem :
      (o : Option File) (w : World)
      → w.files ≡ f₀
      → value_in (content_of o) ≡ counter_at f₀ p
      → Ends (λ f. f ≡ f₀) (ReadAs p f₀) (after_read (run (read_effect o w.files) w))
  unfolding absent
  ran_lem none w e h = (e, sym h)
  ran_lem (some x) w e h = parsed_lem (parse_uint (trim_space x.content)) w e h

  called_lem :
      (s : List Fault) (w : World)
      → w.files ≡ f₀
      → Ends (λ f. f ≡ f₀) (ReadAs p f₀) (after_read (call_with s (λ f. read_effect (f p) f) w))
  unfolding absent
  called_lem [] w e = ran_lem (w.files p) w e (ap (λ (f : Files). counter_at f p) e)
  called_lem (works ∷ s) w e =
      ran_lem (w.files p) (record w { faults = s }) e (ap (λ (f : Files). counter_at f p) e)
  called_lem (fails ∷ s) w e = e
  called_lem (power_loss ∷ s) w e = e

  -- A read leaves the files alone, and where it succeeds it returns the value that they hold.
  pub read_counter_lem : Triple (λ f. f ≡ f₀) (read_counter p) (λ f. f ≡ f₀) (ReadAs p f₀)
  unfolding read_counter attempt read_file call
  read_counter_lem = record { at = λ w e. called_lem w.faults w e }

module _ (dir name : Bytes) (f₀ : Files) (cur to : ℕ)
    (held : counter_at f₀ (join dir name) ≡ some cur) (rises : cur < to)
    (small : to < uint_mod) where
  abbrev file : FilePath
  file = join dir name

  abbrev draft : FilePath
  draft = suffixed file (codes ".tmp")

  abbrev OldOrRaised : Files → Type 0
  OldOrRaised f = (counter_at f file ≡ some cur) ⊎ (counter_at f file ≡ some to)

  abbrev Before : Files → Type 0
  Before f = f file ≡ f₀ file

  record Drafted (f : Files) : Type 0 where
    before : Before f
    text : content_at f draft ≡ some (decimal to)

  Before-old : (f : Files) → Before f → OldOrRaised f
  Before-old f b = inl (ap (λ (o : Option File). value_in (content_of o)) b ∙ held)

  written : value_in (some (decimal to)) ≡ some to
  written = rw (trim_space-plain (decimal to) (decimal-plain to), parse_uint-decimal to small)

  draft_ne : draft =p file ≡ false
  draft_ne = ground (arith, longer-ne name b'.' (codes "tmp"))

  truncate-Allowed :
      (n : ℕ) (o : Option File) (f : Files)
      → Before f
      → Allowed (λ _ g. Before g) (truncate_effect n draft o f)
  truncate-Allowed n none f b = rw draft_ne b
  truncate-Allowed n (some x) f b = rw draft_ne b

  write-Allowed :
      (o : Option File) (f : Files)
      → Before f
      → Allowed (λ _ g. Drafted g) (write_effect draft (decimal to) o f)
  write-Allowed none f b = tt
  write-Allowed (some x) f b = record { before = rw draft_ne b; text = rw (=p_refl draft) }

  rename-Allowed :
      (o : Option File) (f : Files)
      → content_of o ≡ some (decimal to)
      → Allowed (λ _ g. counter_at g file ≡ some to) (rename_effect draft file o f)
  rename-Allowed none f h = tt
  rename-Allowed (some x) f h = rw (=p_refl file) (ap value_in h ∙ written)

  put_counter_lem :
      Triple Before (put_counter file to) OldOrRaised (λ _ f. counter_at f file ≡ some to)
  unfolding put_counter write_new write rename
  put_counter_lem = Triple-bind _ (settle_lem Before-old) λ _.
      Triple-bind _
        (Triple-bind _ Triple-fresh λ n.
          Triple-bind _ (Triple-call _ Before-old λ f b. truncate-Allowed n (f draft) f b)
            λ _. Triple-call _ Before-old λ f b. write-Allowed (f draft) f b)
        λ _. Triple-call _ (λ f h. Before-old f h.before) λ f h. rename-Allowed (f draft) f h.text

-- Where an advance from `cur` to `to` stops early, and where it succeeds.
abbrev pub NotFallen : FilePath → ℕ → ℕ → Files → Type 0
NotFallen p cur to f = (counter_at f p ≡ some cur) ⊎ ((counter_at f p ≡ some to) × (cur < to))

abbrev pub Raised : FilePath → ℕ → ℕ → Files → Type 0
Raised p cur to f = counter_at f p ≡ some (if leb to cur then cur else to)

module _ (dir name : Bytes) (cur to : ℕ) (small : to < uint_mod) where
  module _ (f₀ : Files) (held : counter_at f₀ (join dir name) ≡ some cur) where
    branch :
        (b : Bool)
        → leb to cur ≡ b
        → Triple
            (ReadAs (join dir name) f₀ cur)
            (if b then pure tt else put_counter (join dir name) to)
            (NotFallen (join dir name) cur to)
            (λ _ f. counter_at f (join dir name) ≡ some (if b then cur else to))
    branch true e =
        Triple-pure tt (λ f h. ap (λ (f : Files). counter_at f (join dir name)) h.0 ∙ held)
    branch false e =
        Triple-weaken (λ f h. ap (λ (f : Files). f (join dir name)) h.0) (λ f h. ground arith)
          (λ _ f h. h) (put_counter_lem dir name f₀ cur to held (ground arith) small)

    branches :
        (n : ℕ)
        → Triple
            (ReadAs (join dir name) f₀ n)
            (if leb to n then pure tt else put_counter (join dir name) to)
            (NotFallen (join dir name) cur to)
            (λ _ f. Raised (join dir name) cur to f)
    branches n = record {
      at = λ w h.
          (subst
              (λ (m : ℕ).
                Triple (ReadAs (join dir name) f₀ m)
                  (if leb to m then pure tt else put_counter (join dir name) to)
                  (NotFallen (join dir name) cur to) (λ _ f. Raised (join dir name) cur to f))
              (some-injective cur n (sym held ∙ h.1)) (branch (leb to cur) refl)).at
            w h;
    }

    advance_steps :
        Triple
          (λ f. f ≡ f₀)
          (advance_counter (join dir name) to)
          (NotFallen (join dir name) cur to)
          (λ _ f. Raised (join dir name) cur to f)
    unfolding advance_counter
    advance_steps =
        Triple-bind _
          (Triple-weaken (λ f e. e)
            (λ f e. inl (ap (λ (f : Files). counter_at f (join dir name)) e ∙ held)) (λ n f h. h)
            (read_counter_lem (join dir name) f₀))
          branches

  -- An advance of a counter file that holds `cur`, to a number of 64 bits: stopped by an error or
  -- by the end of the process at any call, the machine running on, it leaves a file that holds `cur`, or the
  -- greater number; where it succeeds the file holds the greater of the two numbers.
  pub advance_counter-rises :
      Triple
        (λ f. counter_at f (join dir name) ≡ some cur)
        (advance_counter (join dir name) to)
        (NotFallen (join dir name) cur to)
        (λ _ f. Raised (join dir name) cur to f)
  advance_counter-rises = record { at = λ w h. (advance_steps w.files h).at w refl }
