-- ===== src/Otad/Health.antt =====
-- RunHealthChecks of internal/otad/otad.go: the health gate. The directory as os.ReadDir tells it and the run
-- of a program are parameters.
pub mod Gate
use Prim.Native.Nat.{bit_and}
use atom_loops.Prelude.{
  ℕ, Bool, true, false, not, ◌||◌, Option, none, some, List, [], ◌∷◌, ◌==◌, if◌then◌else◌,
}
use atom_loops.Prelude.Text.{Bytes}
use atom_loops.Prelude.Sorting.{sort_texts}
use atom_loops.System.Io.{Io, message, errno, pure, throw, ◌>>=◌, ◌>>◌}

-- `mode` is `none` where the entry has no file information.
pub record HealthEntry : Type 0 where
  pub name : Bytes
  pub is_dir : Bool
  pub mode : Option ℕ

pub data Listing : Type 0 where
  missing : Listing
  unreadable : Listing
  listed : List HealthEntry → Listing

-- `passes` tells that the program of that name ends with the status 0 in time.
pub record Health : Type 0 where
  pub listing : Listing
  pub passes : Bytes → Bool

is_runnable : Option ℕ → Bool
is_runnable none = false
is_runnable (some m) = not (bit_and m 73 == 0)

unfoldable pub is_check : HealthEntry → Bool
unfolding is_runnable
is_check e = if e.is_dir then false else is_runnable e.mode

-- The names of the programs. filepath.Join puts the same directory in front of each.
check_names : List HealthEntry → List Bytes
check_names [] = []
check_names (e ∷ es) = let rest = check_names es in if is_check e then e.name ∷ rest else rest

run_checks : (Bytes → Bool) → List Bytes → Io (Unit {0})
run_checks passes [] = pure tt
run_checks passes (s ∷ ss) =
    (if passes s then pure tt else throw (message "health check failed")) >> run_checks passes ss

run_listed : (Bytes → Bool) → Listing → Io (Unit {0})
run_listed passes missing = pure tt
run_listed passes unreadable = throw errno
run_listed passes (listed es) = run_checks passes (sort_texts (check_names es))

unfoldable pub run_health_checks : Health → Io (Unit {0})
unfolding run_listed run_checks check_names
run_health_checks h = run_listed h.passes h.listing
