-- ===== src/Audit.antt =====
-- internal/audit/audit.go: the history of updates, a line for each. encoding/json on an event is a
-- parameter.
pub mod Lines
pub mod Torn
pub mod Appended
use atom_loops.Prelude.{ℕ, Option, none, some, List, [], ◌∷◌, ◌++◌, take, drop, if◌then◌else◌}
use atom_loops.Prelude.Text.{Bytes, is_empty, trim_space, split}
use atom_loops.System.Files.{FilePath}
use atom_loops.System.Io.{
  Io, Error, errno, not_exist, message, wrapped, transient, pure, throw, attempt, after, settle,
  read_file, open_append, append, ◌>>=◌, ◌>>◌,
}

pub record Event : Type 0 where
  pub time : Bytes
  pub action : Bytes
  pub detail : Bytes

pub record EventJson : Type 0 where
  pub encode : Event → Option Bytes
  pub decode : Bytes → Option Event

unfoldable pub event_or_skip : Option Event → List Event → List Event
event_or_skip none es = es
event_or_skip (some e) es = e ∷ es

module _ (json : EventJson) where
  encoded_event : Option Bytes → Io Bytes
  encoded_event none = throw (message "json")
  encoded_event (some b) = pure b

  -- The write may reach the file in two parts, the first of that length.
  append_parts : FilePath → ℕ → Bytes → Io (Unit {0})
  append_parts p n s = append p (take n s) >> append p (drop n s)

  -- Append, with the time as a text; the error of the deferred Close is ignored.
  unfoldable pub append_event : FilePath → ℕ → Event → Io (Unit {0})
  unfolding encoded_event append_parts
  append_event p n e = do
    b ← encoded_event (json.encode e)
    settle
    open_append p
    after (append_parts p n (b ++ 10 ∷ [])) settle

  -- The loop of Read over the lines.
  unfoldable pub events_in : List Bytes → List Event
  events_in [] = []
  events_in (l ∷ ls) =
      let rest = events_in ls in if is_empty l then rest else event_or_skip (json.decode l) rest

  unfoldable pub events_of : Bytes → List Event
  unfolding events_in
  events_of b = events_in (split 10 (trim_space b))

  absent_is_empty : Error → Io (List Event)
  absent_is_empty not_exist = pure []
  absent_is_empty errno = throw errno
  absent_is_empty (message s) = throw (message s)
  absent_is_empty (wrapped s e) = throw (wrapped s e)
  absent_is_empty (transient e) = throw (transient e)

  -- Read
  unfoldable pub read_events : FilePath → Io (List Event)
  unfolding absent_is_empty
  read_events p = attempt (read_file p) (λ b. pure (events_of b)) absent_is_empty
