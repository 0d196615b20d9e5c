-- ===== src/System/Io.antt =====
-- Calls of the operating system in sequence. Each call takes the next fault of a schedule: it works, it
-- fails, or the power is lost in place of it, and nothing runs after that. A call that fails or is lost
-- has no effect; effects reach the disk in the order of the calls.
use atom_loops.Prelude.{
  ℕ, suc, Option, none, some, List, [], ◌∷◌, ◌++◌, String, if◌then◌else◌, Bool, true, false,
}
use atom_loops.Prelude.Text.{Bytes}
use atom_loops.System.Files.{FilePath, temp, File, Files, update, in_work}

pub data Fault : Type 0 where
  works fails power_loss : Fault

-- An error keeps the fixed text of its message; what is formatted into it is not modelled. `transient`
-- is transientFeedError of cmd/updated.
pub data Error : Type 0 where
  errno : Error
  not_exist : Error
  message : String → Error
  wrapped : String → Error → Error
  transient : Error → Error

pub record World : Type 0 where
  pub files : Files
  pub next : ℕ
  pub faults : List Fault

pub data Outcome {ℓ} (A : Type ℓ) : Type ℓ where
  done : A → Outcome A
  failed : Error → Outcome A
  lost : Outcome A

abbrev pub Io : Type 0 → Type 0
Io A = World → Outcome A × World

abbrev pub pure : {A : Type 0} → A → Io A
pure a w = (done a, w)

abbrev pub throw : {A : Type 0} → Error → Io A
throw e w = (failed e, w)

abbrev pub continue : {A B : Type 0} → Outcome A → (A → Io B) → Io B
continue (done a) k w = k a w
continue (failed e) k w = (failed e, w)
continue lost k w = (lost, w)

infixl 5 ◌>>=◌ ◌>>◌
unfoldable pub ◌>>=◌ : {A B : Type 0} → Io A → (A → Io B) → Io B
◌>>=◌ m k w = let (r, w') = m w in continue r k w'

abbrev pub ◌>>◌ : {A B : Type 0} → Io A → Io B → Io B
m >> k = m >>= λ _. k

-- `if err := m(); err != nil` with a handler of its own.
abbrev pub handle : {A B : Type 0} → Outcome A → (A → Io B) → (Error → Io B) → Io B
handle (done a) k h w = k a w
handle (failed e) k h w = h e w
handle lost k h w = (lost, w)

unfoldable pub attempt : {A B : Type 0} → Io A → (A → Io B) → (Error → Io B) → Io B
attempt m k h w = let (r, w') = m w in handle r k h w'

-- fmt.Errorf("label: %w", err)
abbrev pub label : {A : Type 0} → String → Io A → Io A
label s m = attempt m pure (λ e. throw (wrapped s e))

-- _ = m()
abbrev pub ignore : {A : Type 0} → Io A → Io (Unit {0})
ignore m = attempt m (λ _. pure tt) (λ _. pure tt)

-- `defer cleanup()` in front of m.
abbrev pub after : {A : Type 0} → Io A → Io (Unit {0}) → Io A
after m cleanup = attempt m (λ a. ignore cleanup >> pure a) (λ e. ignore cleanup >> throw e)

-- One call, with what it does to the files where it works; `none` where the files do not allow it.
abbrev pub run : {A : Type 0} → Option (A × Files) → World → Outcome A × World
run none w = (failed not_exist, w)
run (some (a, f)) w = (done a, record w { files = f })

abbrev pub call_with : {A : Type 0} → List Fault → (Files → Option (A × Files)) → Io A
call_with [] effect w = run (effect w.files) w
call_with (works ∷ s) effect w = run (effect w.files) (record w { faults = s })
call_with (fails ∷ s) effect w = (failed errno, record w { faults = s })
call_with (power_loss ∷ s) effect w = (lost, record w { faults = s })

unfoldable pub call : {A : Type 0} → (Files → Option (A × Files)) → Io A
call effect w = call_with w.faults effect w

-- A number that was not used before, for a new file and a new name.
unfoldable pub fresh : Io ℕ
fresh w = (done w.next, record w { next = suc w.next })

-- os.ReadFile
abbrev pub read_effect : Option File → Files → Option (Bytes × Files)
read_effect none f = none
read_effect (some x) f = some (x.content, f)

unfoldable pub read_file : FilePath → Io Bytes
read_file p = call (λ f. read_effect (f p) f)

-- os.Stat: the file, or `none` where there is none; another error is a failure.
unfoldable pub stat : FilePath → Io (Option File)
stat p = call (λ f. some (f p, f))

-- File.Sync, File.Close, os.MkdirAll and the sync of a directory: no effect on what is read.
unfoldable pub settle : Io (Unit {0})
settle = call (λ f. some (tt, f))

-- os.Rename
abbrev pub rename_effect : FilePath → FilePath → Option File → Files → Option (Unit {0} × Files)
rename_effect p q none f = none
rename_effect p q (some x) f = some (tt, update (update f p none) q (some x))

unfoldable pub rename : FilePath → FilePath → Io (Unit {0})
rename p q = call (λ f. rename_effect p q (f p) f)

-- os.Remove
abbrev pub remove_effect : FilePath → Option File → Files → Option (Unit {0} × Files)
remove_effect p none f = none
remove_effect p (some x) f = some (tt, update f p none)

unfoldable pub remove : FilePath → Io (Unit {0})
remove p = call (λ f. remove_effect p (f p) f)

-- os.Link
abbrev pub link_effect : FilePath → FilePath → Option File → Files → Option (Unit {0} × Files)
link_effect p q none f = none
link_effect p q (some x) f = some (tt, update f q (some x))

unfoldable pub link : FilePath → FilePath → Io (Unit {0})
link p q = call (λ f. link_effect p q (f p) f)

-- os.CreateTemp: a new empty file under a new name.
unfoldable pub create_temp : Io FilePath
create_temp = do
  n ← fresh
  call (λ f. some (temp n, update f (temp n) (some (record { inode = n; content = [] }))))

-- Writing content to an open file.
abbrev pub write_effect : FilePath → Bytes → Option File → Files → Option (Unit {0} × Files)
write_effect p s none f = none
write_effect p s (some x) f = some (tt, update f p (some (record x { content = s })))

unfoldable pub write : FilePath → Bytes → Io (Unit {0})
write p s = call (λ f. write_effect p s (f p) f)

-- os.WriteFile: creates the file or truncates it, and writes. Where it fails or the power is lost it
-- may have left nothing or an empty file: the fault before it and the one behind the truncation.
abbrev pub truncate_effect : ℕ → FilePath → Option File → Files → Option (Unit {0} × Files)
truncate_effect n p none f = some (tt, update f p (some (record { inode = n; content = [] })))
truncate_effect n p (some x) f = some (tt, update f p (some (record x { content = [] })))

unfoldable pub write_new : FilePath → Bytes → Io (Unit {0})
unfolding write
write_new p s = do n ← fresh; call (λ f. truncate_effect n p (f p) f); write p s

-- A cleanup on the error path only, `if err != nil { cleanup(); return err }`.
abbrev pub on_error : {A : Type 0} → Io A → Io (Unit {0}) → Io A
on_error m cleanup = attempt m pure (λ e. cleanup >> throw e)

-- os.Create: an empty file in place of what was there.
unfoldable pub create : FilePath → Io (Unit {0})
create p = do n ← fresh; call (λ f. truncate_effect n p (f p) f)

-- os.MkdirTemp, and os.RemoveAll of its directory.
unfoldable pub create_work : Io ℕ
create_work = do n ← fresh; settle; pure n

unfoldable pub remove_work : ℕ → Io (Unit {0})
remove_work n = call (λ f. some (tt, λ q. if in_work n q then none else f q))

-- `_, err := os.Stat(p); err == nil`
abbrev pub present : Option File → Bool
present none = false
present (some x) = true

unfoldable pub found : FilePath → Io Bool
found p = attempt (stat p) (λ o. pure (present o)) (λ _. pure false)

-- syscall.Sync
abbrev pub flush : Io (Unit {0})
flush = ignore settle

-- os.OpenFile with O_CREATE and O_APPEND: an empty file where there is none.
abbrev pub open_effect : ℕ → FilePath → Option File → Files → Option (Unit {0} × Files)
open_effect n p none f = some (tt, update f p (some (record { inode = n; content = [] })))
open_effect n p (some x) f = some (tt, f)

unfoldable pub open_append : FilePath → Io (Unit {0})
open_append p = do n ← fresh; call (λ f. open_effect n p (f p) f)

-- Content that is added at the end of an open file.
abbrev pub append_effect : FilePath → Bytes → Option File → Files → Option (Unit {0} × Files)
append_effect p s none f = none
append_effect p s (some x) f = some (tt, update f p (some (record x { content = x.content ++ s })))

unfoldable pub append : FilePath → Bytes → Io (Unit {0})
append p s = call (λ f. append_effect p s (f p) f)
