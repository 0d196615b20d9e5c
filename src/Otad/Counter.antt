-- ===== src/Otad/Counter.antt =====
-- internal/otad/counter.go: the anti-rollback counter in a file, and behind operator commands. The file is
-- not synced before its rename, and what a loss of power leaves of it is not modelled: a sequence that stops
-- here stands for a process that ends.
pub mod Advance
use atom_loops.Prelude.{ℕ, Bool, true, Option, none, some, leb, if◌then◌else◌}
use atom_loops.Prelude.Text.{Bytes, trim_space}
use atom_loops.Prelude.Numerals.{Parsed, number, syntax, range, parse_uint, decimal}
use atom_loops.System.Files.{FilePath, File, suffixed}
use atom_loops.Prelude.Text.{codes}
use atom_loops.System.Io.{
  Io, Error, not_exist, errno, message, wrapped, transient, pure, throw, attempt, settle, rename,
  call, read_file, ◌>>=◌, ◌>>◌, write_new,
}

-- CounterStore: an `interface` value is the pair of its methods.
pub record CounterStore : Type 1 where
  pub read : Io ℕ
  pub advance : ℕ → Io (Unit {0})

-- ParseUint of the trimmed text.
parsed : Parsed → Io ℕ
parsed (number n) = pure n
parsed syntax = throw (message "counter: bad value")
parsed range = throw (message "counter: bad value")

-- A file that does not exist reads as 0.
absent : Error → Io ℕ
absent not_exist = pure 0
absent errno = throw errno
absent (message s) = throw (message s)
absent (wrapped s e) = throw (wrapped s e)
absent (transient e) = throw (transient e)

unfoldable pub read_counter : FilePath → Io ℕ
unfolding parsed absent
read_counter p = attempt (read_file p) (λ b. parsed (parse_uint (trim_space b))) absent

-- The write of a new value: a fixed temporary name, and a rename.
put_counter : FilePath → ℕ → Io (Unit {0})
put_counter p to = do
  settle
  write_new (suffixed p (codes ".tmp")) (decimal to)
  rename (suffixed p (codes ".tmp")) p

unfoldable pub advance_counter : FilePath → ℕ → Io (Unit {0})
unfolding put_counter
advance_counter p to = do cur ← read_counter p; if leb to cur then pure tt else put_counter p to

abbrev pub file_counter : FilePath → CounterStore
file_counter p = record { read = read_counter p; advance = advance_counter p }

-- CommandCounter: the outcomes of the two shell commands are parameters, from the output of the read
-- command, and from the target handed to the other.
module _ (read_cmd : Io Bytes) (advance_cmd : ℕ → Io (Unit {0})) where
  unfoldable pub read_command : Io ℕ
  unfolding parsed
  read_command =
      attempt read_cmd (λ out. parsed (parse_uint (trim_space out)))
        (λ e. throw (wrapped "counter read" e))

  unfoldable pub advance_command : ℕ → Io (Unit {0})
  advance_command to = do
    cur ← read_command
    if leb to cur
        then pure tt
        else attempt (advance_cmd to) pure (λ e. throw (wrapped "counter advance" e))
