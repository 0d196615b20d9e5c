-- ===== src/Otad/Recovery/Points.antt =====
-- The points at which a replacement of the recovery image can be cut off.
use atom_loops.Prelude.{◌≡◌, Bool, true, none, some}
use atom_loops.System.Files.{File, Files}
use atom_loops.System.Steady.{
  Steady, Steady-bind, Steady-attempt, Steady-pure, Steady-never, Steady-rename, Steady-settle,
  Steady-ignore, Steady-label, Steady-found_bind,
}
use atom_loops.Otad.Slots.{StageDirs, sync_dir}
use atom_loops.Otad.Trusted.{commit_dir}
use atom_loops.Otad.Recovery.{
  recovery_path, recovery_next, recovery_prev, sig_of, swap_recovery, keep_old,
}
use atom_loops.Otad.Recovery.Swap.{Pairs, Holds, keep_image, keep_sig, install_sig, install_image}

-- The files of one replacement: the old pair a, b and the new pair c, d.
module _ (dirs : StageDirs) (a b c d : File) where
  abbrev pub at_start : Pairs
  at_start = record {
    image = some a;
    sig = some b;
    prev = none;
    prev_sig = none;
    next = some c;
    next_sig = some d;
  }

  abbrev pub image_kept : Pairs
  image_kept = record at_start { image = none; prev = some a }

  abbrev pub pair_kept : Pairs
  pair_kept = record image_kept { sig = none; prev_sig = some b }

  abbrev pub sig_installed : Pairs
  sig_installed = record pair_kept { next_sig = none; sig = some d }

  abbrev pub at_end : Pairs
  at_end = record sig_installed { next = none; image = some c }

  -- The points at which the replacement can be cut off.
  pub data Torn (f : Files) : Type 0 where
    start : Holds dirs at_start f → Torn f
    kept_image : Holds dirs image_kept f → Torn f
    kept_pair : Holds dirs pair_kept f → Torn f
    new_sig : Holds dirs sig_installed f → Torn f
    end : Holds dirs at_end f → Torn f

  pub commit-Steady :
      {loss : Bool} (P I E : Files → Type 0)
      → (loss ≡ true → (f : Files) → P f → I f)
      → Steady loss P commit_dir I E (λ _ f. P f)
  unfolding commit_dir sync_dir
  commit-Steady P I E keep =
      Steady-bind _ (Steady-bind _ (Steady-settle keep) (λ _. Steady-settle keep)) λ _.
        Steady-bind _ (Steady-settle keep)
          λ _. Steady-bind _ (Steady-settle keep) λ _. Steady-settle keep

  abbrev pub Never : Files → Type 0
  Never f = ⊥

  keep_old_lem :
      Steady true
        (Holds dirs at_start)
        (keep_old dirs true)
        Torn
        Never
        (λ _ f. Holds dirs pair_kept f)
  unfolding keep_old
  keep_old_lem =
      Steady-bind {R = λ _ f. Holds dirs image_kept f} _
        (Steady-attempt {E = Never} {R = λ _ f. Holds dirs image_kept f} _ _
          (Steady-label _ (
            Steady-rename (recovery_path dirs) (recovery_prev dirs) a (λ f s. s.image_is)
              (λ _ f. start) (λ f. keep_image dirs at_start a f)))
          (λ _. Steady-pure _ (λ f s. s)) (λ e. Steady-never _))
        λ _. Steady-ignore (
          Steady-rename (sig_of (recovery_path dirs)) (sig_of (recovery_prev dirs)) b
            (λ f s. s.sig_is) (λ _ f. kept_image) (λ f. keep_sig dirs image_kept b f))

  pub swap_lem :
      Steady true (Holds dirs at_start) (swap_recovery dirs) Torn Never (λ _ f. Holds dirs at_end f)
  unfolding swap_recovery
  swap_lem =
      Steady-found_bind (recovery_path dirs) (some a) _ (λ f s. s.image_is) (λ _ f. start)
        (Steady-bind {R = λ _ f. Holds dirs pair_kept f} _ keep_old_lem λ _.
          Steady-bind {R = λ _ f. Holds dirs sig_installed f} _
            (Steady-label _ (
              Steady-rename (sig_of (recovery_next dirs)) (sig_of (recovery_path dirs)) d
                (λ f s. s.next_sig_is) (λ _ f. kept_pair) (λ f. install_sig dirs pair_kept d f)))
            λ _.
              Steady-bind {R = λ _ f. Holds dirs at_end f} _
                (Steady-label _ (
                  Steady-rename (recovery_next dirs) (recovery_path dirs) c (λ f s. s.next_is)
                    (λ _ f. new_sig) (λ f. install_image dirs sig_installed c f)))
                λ _. commit-Steady (Holds dirs at_end) Torn Never (λ _ f. end))
