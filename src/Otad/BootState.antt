-- ===== src/Otad/BootState.antt =====
-- internal/otad/slots.go: the boot-state file of the ESP, which the daemon writes and the loader reads.
pub mod RoundTrip
pub mod Choice
use atom_loops.Prelude.{
  Bool, true, false, not, Option, none, some, List, [], ◌∷◌, ◌++◌, if◌then◌else◌,
}
use atom_loops.Prelude.Text.{Bytes, codes, ◌=b◌, split, cut, trim_space, is_empty}
use atom_loops.Prelude.Int.{ℤ, pos}
use atom_loops.Prelude.Numerals.{atoi, decimal_ℤ}
use atom_loops.Deployment.State.{Deployment, has_pending}
use atom_loops.Deployment.Transition.{needs_recovery}

pub record BootState : Type 0 where
  pub target : Bytes
  pub trial : Bool
  pub attempts : ℤ

abbrev pub no_state : BootState
no_state = record { target = []; trial = false; attempts = pos 0 }

-- Marshal
unfoldable pub marshal : BootState → Bytes
marshal b =
    codes "target="
    ++ (b.target
        ++ 10
          ∷ (codes "trial="
              ++ ((if b.trial then b'1' else b'0')
                  ∷ 10
                  ∷ (codes "attempts=" ++ (decimal_ℤ b.attempts ++ 10 ∷ [])))))

-- The `switch` of ReadBootState on one key.
set_field : BootState → Bytes → Bytes → BootState
set_field b k v =
    if k =b codes "target"
    then record b { target = v }
    else (if k =b codes "trial"
        then record b { trial = v =b codes "1" }
        else (if k =b codes "attempts" then record b { attempts = (atoi v).0 } else b))

read_line : BootState → Bytes → BootState
unfolding set_field
read_line b line = elim (cut b'=' (trim_space line)) [ none ↦ b | some (k, v) ↦ set_field b k v ]

read_lines : BootState → List Bytes → BootState
read_lines b [] = b
read_lines b (l ∷ ls) = read_lines (read_line b l) ls

-- ReadBootState, from the text of the file. Lines are below the scanner's limit of 64 KiB.
unfoldable pub read_state : Bytes → BootState
unfolding read_lines read_line
read_state text = read_lines no_state (split 10 text)

-- The choice of writeDeploymentBootState.
unfoldable pub choose : Deployment → BootState
choose d =
    if needs_recovery d
    then record no_state { target = codes "recovery" }
    else (if has_pending d
        then record { target = codes "next"; trial = true; attempts = d.rootfs.boot_attempts }
        else record no_state { target = codes "active" })
