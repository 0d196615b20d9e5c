-- ===== src/Otad/Recovery/Swap.antt =====
-- The pair of the recovery image and its signature while it is replaced.
use atom_loops.Prelude.{◌≡◌, Option, none, some, arith}
use atom_loops.Prelude.Text.{=b_refl}
use atom_loops.System.Files.{FilePath, File, Files, update}
use atom_loops.Otad.Slots.{StageDirs}
use atom_loops.Otad.Recovery.{recovery_path, recovery_next, recovery_prev, sig_of}

-- The files under the six names: the installed pair, the one before it, and the one that was fetched.
pub record Pairs : Type 0 where
  pub image : Option File
  pub sig : Option File
  pub prev : Option File
  pub prev_sig : Option File
  pub next : Option File
  pub next_sig : Option File

module _ (dirs : StageDirs) where
  pub record Holds (s : Pairs) (f : Files) : Type 0 where
    pub image_is : f (recovery_path dirs) ≡ s.image
    pub sig_is : f (sig_of (recovery_path dirs)) ≡ s.sig
    pub prev_is : f (recovery_prev dirs) ≡ s.prev
    pub prev_sig_is : f (sig_of (recovery_prev dirs)) ≡ s.prev_sig
    pub next_is : f (recovery_next dirs) ≡ s.next
    pub next_sig_is : f (sig_of (recovery_next dirs)) ≡ s.next_sig

  abbrev move : FilePath → FilePath → File → Files → Files
  move p q a f = update (update f p none) q (some a)

  pub keep_image :
      (s : Pairs) (a : File) (f : Files)
      → Holds s f
      → Holds
          (record s { image = none; prev = some a })
          (move (recovery_path dirs) (recovery_prev dirs) a f)
  keep_image s a f h = ground (arith, =b_refl dirs.esp)

  pub keep_sig :
      (s : Pairs) (a : File) (f : Files)
      → Holds s f
      → Holds
          (record s { sig = none; prev_sig = some a })
          (move (sig_of (recovery_path dirs)) (sig_of (recovery_prev dirs)) a f)
  keep_sig s a f h = ground (arith, =b_refl dirs.esp)

  pub install_sig :
      (s : Pairs) (a : File) (f : Files)
      → Holds s f
      → Holds
          (record s { next_sig = none; sig = some a })
          (move (sig_of (recovery_next dirs)) (sig_of (recovery_path dirs)) a f)
  install_sig s a f h = ground (arith, =b_refl dirs.esp)

  pub install_image :
      (s : Pairs) (a : File) (f : Files)
      → Holds s f
      → Holds
          (record s { next = none; image = some a })
          (move (recovery_next dirs) (recovery_path dirs) a f)
  install_image s a f h = ground (arith, =b_refl dirs.esp)

  pub restore_image :
      (s : Pairs) (a : File) (f : Files)
      → Holds s f
      → Holds
          (record s { prev = none; image = some a })
          (move (recovery_prev dirs) (recovery_path dirs) a f)
  restore_image s a f h = ground (arith, =b_refl dirs.esp)

  pub restore_sig :
      (s : Pairs) (a : File) (f : Files)
      → Holds s f
      → Holds
          (record s { prev_sig = none; sig = some a })
          (move (sig_of (recovery_prev dirs)) (sig_of (recovery_path dirs)) a f)
  restore_sig s a f h = ground (arith, =b_refl dirs.esp)
