-- ===== src/Signing/Written.antt =====
-- What the release side leaves in the files that it writes.
use atom_loops.Prelude.{
  ◌≡◌, [], refl, ℕ, Bool, true, false, Option, none, some, ◌==◌, length, if◌then◌else◌,
}
use atom_loops.Prelude.Text.{Bytes}
use atom_loops.System.Files.{FilePath, is_temp, File, Files, content_at, content_of, ◌=p◌, =p_refl}
use atom_loops.System.Io.{
  Io, World, Outcome, done, failed, lost, message, pure, throw, read_file, write_new, write,
  read_effect, write_effect, truncate_effect,
}
use atom_loops.System.Triple.{
  Triple, Ends, Allowed, Triple-bind, Triple-pure, Triple-throw, Triple-call, Triple-fresh,
  Triple-weaken,
}
use atom_loops.System.Keeps.{Keeps-at}
use atom_loops.Otad.Fetch.Frame.{write_new-Keeps}
use atom_loops.Signing.{Signer, encoded_text, key_pair, private_key, new_pair}

abbrev pub Anything : Files → Type 0
Anything f = Unit

-- After a file is written it has the content.
pub written_lem :
    (p : FilePath) (s : Bytes)
    → Triple Anything (write_new p s) Anything (λ _ f. content_at f p ≡ some s)
unfolding write_new write
written_lem p s = Triple-bind _ Triple-fresh λ n.
    Triple-bind {R = λ _ f. (x : File) × (f p ≡ some x)} _
      (Triple-call _ (λ f h. tt) (λ f h. cut n (f p) f))
      (λ _. Triple-call _ (λ f h. tt) (λ f h. put (f p) f h.0 h.1))
  where
    cut :
        (n : ℕ) (o : Option File) (f : Files)
        → Allowed (λ _ g. (x : File) × (g p ≡ some x)) (truncate_effect n p o f)
    cut n none f = (record { inode = n; content = [] }, rw (=p_refl p) refl)
    cut n (some x) f = (record x { content = [] }, rw (=p_refl p) refl)

    put :
        (o : Option File) (f : Files) (x : File)
        → o ≡ some x
        → Allowed (λ _ g. content_at g p ≡ some s) (write_effect p s o f)
    put none f x h = tt
    put (some y) f x h = rw (=p_refl p) refl

-- Two results of one sequence.
pub Triple-pair :
    {A : Type 0} {m : Io A} (P Q : Files → Type 0) (R S : A → Files → Type 0)
    → Triple P m Anything R
    → Triple Q m Anything S
    → Triple (λ f. P f × Q f) m Anything (λ a f. R a f × S a f)
Triple-pair {A = A} {m = m} P Q R S t u = record { at = λ w h. go (m w) (t.at w h.0) (u.at w h.1) }
  where
    go :
        (r : Outcome A × World)
        → Ends Anything R r
        → Ends Anything S r
        → Ends Anything (λ a f. R a f × S a f) r
    go (done a, w) x y = (x, y)
    go (failed c, w) x y = tt
    go (lost, w) x y = tt

-- A fact that does not depend on the files.
pub Triple-with :
    {A X : Type 0} {m : Io A} {R : A → Files → Type 0}
    → (X → Triple Anything m Anything R)
    → Triple (λ f. X) m Anything R
Triple-with t = record { at = λ w x. (t x).at w tt }

-- A write leaves the content of another file.
pub beside_lem :
    (p q : FilePath) (s b : Bytes)
    → q =p p ≡ false
    → is_temp p ≡ false
    → Triple
        (λ f. content_at f p ≡ some b)
        (write_new q s)
        Anything
        (λ _ f. content_at f p ≡ some b)
beside_lem p q s b h plain =
    Triple-weaken (λ f h. h) (λ f h. tt) (λ _ f h. h)
      (Keeps-at p (λ o. content_of o ≡ some b) (λ x. write_new-Keeps p x plain q s h))

pub read_lem :
    (p : FilePath) (s : Bytes)
    → Triple (λ f. content_at f p ≡ some s) (read_file p) Anything (λ b f. b ≡ s)
unfolding read_file
read_lem p s = Triple-call _ (λ f h. tt) (λ f h. go (f p) f h)
  where
    go :
        (o : Option File) (f : Files)
        → content_of o ≡ some s
        → Allowed (λ b g. b ≡ s) (read_effect o f)
    go none f h = tt
    go (some x) f h = cc

pub encoded_lem : (o : Option Bytes) → Triple Anything (encoded_text o) Anything (λ b f. o ≡ some b)
unfolding encoded_text
encoded_lem none = Triple-throw _ (λ f h. h)
encoded_lem (some b) = Triple-pure b (λ f h. refl)

module _ (signer : Signer) where
  pub private_lem :
      (p : FilePath) (s : Bytes)
      → Triple (λ f. content_at f p ≡ some s) (private_key signer p) Anything (λ b f. b ≡ s)
  unfolding private_key
  private_lem p s = Triple-bind _ (read_lem p s) λ b. go b (length b == 64)
    where
      go :
          (b : Bytes) (t : Bool)
          → Triple
              (λ f. b ≡ s)
              (if t then pure b else throw (message "private key must be 64 bytes"))
              Anything
              (λ b f. b ≡ s)
      go b true = Triple-pure b (λ f h. h)
      go b false = Triple-throw _ (λ f h. tt)

  pub pair_lem :
      Triple Anything (new_pair signer) Anything (λ k f. (n : ℕ) × (signer.generate n ≡ some k))
  unfolding new_pair key_pair
  pair_lem = Triple-bind _ Triple-fresh λ n. go n (signer.generate n) refl
    where
      go :
          (n : ℕ) (o : Option (Bytes × Bytes))
          → signer.generate n ≡ o
          → Triple Anything (key_pair o) Anything (λ k f. (n : ℕ) × (signer.generate n ≡ some k))
      go n none e = Triple-throw _ (λ f h. tt)
      go n (some k) e = Triple-pure k (λ f h. (n, e))
