-- ===== src/Diag.antt =====
-- internal/diag: the report on a failed boot or install. gzip, base64 and sha256 are parameters, and so is
-- what a command prints.
pub mod Within
use mathlib.Core.List.{reverse}
use atom_loops.Prelude.{
  ℕ, zero, suc, ◌+◌, ◌-◌, Bool, true, false, not, ◌&&◌, ◌||◌, Option, none, some, List, [], ◌∷◌,
  ◌++◌, length, drop, take, ltb, leb, ◌==◌, if◌then◌else◌,
}
use atom_loops.Prelude.Text.{Bytes, codes, is_empty, is_space, trim_space, split, fields_func, ◌=b◌}
use atom_loops.Prelude.Int.{ℤ, pos, negsuc}
use atom_loops.Prelude.Hex.{encode_hex}
use atom_loops.System.Files.{FilePath, join}
use atom_loops.System.Io.{Io, pure, attempt, read_file, ◌>>=◌}

-- `path` is `none` where Path is empty.
pub record Source : Type 0 where
  pub label : Bytes
  pub path : Option FilePath
  pub cmd : Bytes
  pub max : ℤ

pub record DiagConfig : Type 0 where
  pub stage : Bytes
  pub error : Bytes
  pub sources : List Source

unfoldable pub default_config : Bytes → Bytes → DiagConfig
default_config stage error = record {
  stage = stage;
  error = error;
  sources =
      record {
        label = codes "cmdline";
        path = some (join (codes "/proc") (codes "cmdline"));
        cmd = [];
        max = pos 0;
      }
      ∷ record { label = codes "dmesg"; path = none; cmd = codes "dmesg"; max = pos 65536 }
      ∷ record {
        label = codes "failed-units";
        path = none;
        cmd = codes "atomctl list-failed";
        max = pos 0;
      }
      ∷ record {
        label = codes "session";
        path = some (join (codes "/run/atom") (codes "boot.log"));
        cmd = [];
        max = pos 32768;
      }
      ∷ record {
        label = codes "rescue";
        path = some (join (codes "/run/sintylogs") (codes "rescue.log"));
        cmd = [];
        max = pos 16384;
      }
      ∷ [];
}

pub record Section : Type 0 where
  pub label : Bytes
  pub content : Bytes

pub record Bundle : Type 0 where
  pub stage : Bytes
  pub error : Bytes
  pub when : Bytes
  pub sections : List Section

unfoldable pub tail : ℤ → Bytes → Bytes
tail (negsuc n) b = b
tail (pos zero) b = b
tail (pos (suc n)) b = if ltb (suc n) (length b) then drop (length b - suc n) b else b

-- What `sh -c` prints, whether it fails or not.
read_source : (Bytes → Bytes) → Option FilePath → Bytes → Io Bytes
read_source output (some p) cmd = attempt (read_file p) pure (λ _. pure [])
read_source output none cmd = pure (if is_empty cmd then [] else output cmd)

collect_sections : (Bytes → Bytes) → List Source → Io (List Section)
collect_sections output [] = pure []
collect_sections output (s ∷ ss) = do
  b ← read_source output s.path s.cmd
  rest ← collect_sections output ss
  pure (record { label = s.label; content = tail s.max b } ∷ rest)

-- Collect
unfoldable pub collect : (Bytes → Bytes) → Bytes → DiagConfig → Io Bundle
unfolding collect_sections read_source
collect output now c = do
  sections ← collect_sections output c.sources
  pure (record { stage = c.stage; error = c.error; when = now; sections = sections })

-- A line of a report, where it has something to say.
abbrev line_of : Bytes → Bytes → Bytes
line_of start v = if is_empty v then [] else start ++ v ++ codes "\n"

ended : Bytes → Bytes
ended [] = []
ended (c ∷ []) = if c == 10 then c ∷ [] else c ∷ 10 ∷ []
ended (c ∷ d ∷ s) = c ∷ ended (d ∷ s)

full_sections : List Section → Bytes
full_sections [] = []
full_sections (s ∷ ss) =
    (codes "\n===== " ++ s.label ++ codes " =====\n") ++ ended s.content ++ full_sections ss

-- Full
unfoldable pub full : Bundle → Bytes
unfolding full_sections ended
full b =
    (codes "SINTY-DIAG stage=" ++ b.stage ++ codes " when=" ++ b.when ++ codes "\n")
    ++ line_of (codes "error: ") b.error
    ++ full_sections b.sections

trim_newlines : Bytes → Bytes
trim_newlines [] = []
trim_newlines (c ∷ s) = if c == 10 then trim_newlines s else c ∷ s

-- strings.Join with a one-byte separator.
join_by : ℕ → List Bytes → Bytes
join_by sep [] = []
join_by sep (l ∷ []) = l
join_by sep (l ∷ m ∷ ls) = l ++ sep ∷ join_by sep (m ∷ ls)

unfoldable pub last_lines : ℕ → Bytes → Bytes
unfolding trim_newlines join_by
last_lines n b =
    let lines = split 10 (reverse (trim_newlines (reverse b))) in
    join_by 10 (if ltb n (length lines) then drop (length lines - n) lines else lines)

section_of : Bytes → List Section → Bytes
section_of label [] = []
section_of label (s ∷ ss) = if s.label =b label then s.content else section_of label ss

dmesg_tail : Bytes → ℕ → Bytes
dmesg_tail dm n =
    if is_empty dm || n == 0 then [] else codes "dmesg-tail:\n" ++ last_lines n dm ++ codes "\n"

pub record Encoders : Type 0 where
  pub sha256 : Bytes → Bytes
  pub gzip : Bytes → Bytes
  pub base64url : Bytes → Bytes

module _ (enc : Encoders) where
  open enc use {sha256, gzip, base64url}

  -- ID
  unfoldable pub bundle_id : Bundle → Bytes
  bundle_id b = take 8 (encode_hex (sha256 (full b)))

  -- Compact, without the tail of dmesg and with it.
  unfoldable pub essentials : Bundle → Bytes
  unfolding section_of join_by
  essentials b =
      (codes "stage: " ++ b.stage ++ codes "\n")
      ++ line_of (codes "error: ") b.error
      ++ (codes "id: " ++ bundle_id b ++ codes "\n")
      ++ (codes "when: " ++ b.when ++ codes "\n")
      ++ line_of (codes "cmdline: ") (trim_space (section_of (codes "cmdline") b.sections))
      ++ line_of (codes "failed: ") (
          join_by 32
            (fields_func is_space (trim_space (section_of (codes "failed-units") b.sections))))

  unfoldable pub compact : Bundle → ℕ → Bytes
  unfolding dmesg_tail section_of
  compact b n = essentials b ++ dmesg_tail (section_of (codes "dmesg") b.sections) n

  -- EncodeQRPayload
  unfoldable pub encode_qr_payload : Bytes → Bytes
  encode_qr_payload p = codes "SINTY-FAIL v1\n" ++ base64url (gzip p)

  -- The loop of CompactWithin; `none` means that the fuel ran out.
  unfoldable pub shrink : ℕ → ℕ → Bundle → ℕ → Option (Bytes × Bytes × ℕ)
  shrink zero lines b budget = none
  shrink (suc fuel) lines b budget =
      let text = compact b lines in
      let payload = encode_qr_payload text in
      let rest = shrink fuel (lines - 4) b budget in
      if leb (length payload) budget || lines == 0 then some (text, payload, lines) else rest

  -- CompactWithin, for a budget that is not negative.
  unfoldable pub compact_within : Bundle → ℕ → Option (Bytes × Bytes × ℕ)
  compact_within b budget = shrink 11 40 b budget
