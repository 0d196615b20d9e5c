-- ===== src/Otad/Recovery/Survival.antt =====
-- A replacement of the recovery image that a loss of power cuts off, and the repair after the restart.
use atom_loops.Prelude.{
  ◌∙◌, ◌≡◌, refl, Bool, true, false, none, some, [], ◌∷◌, arith, if◌then◌else◌,
}
use atom_loops.Prelude.Text.{=b_refl, is_empty}
use atom_loops.Deployment.Wal.Crash.{restarted}
use atom_loops.System.Files.{File, Files, update}
use atom_loops.System.Io.{
  Io, World, Outcome, ◌>>◌, ◌>>=◌, done, failed, lost, works, power_loss, settle, pure, found, stat,
  call, attempt, rename, remove,
}
use atom_loops.System.Steady.{
  Steady, Stops, is_steady, Steady-bind, Steady-pure, Steady-never, Steady-rename,
  Steady-rename_missing, Steady-ignore, Steady-label, Steady-remove, Steady-found_bind,
}
use atom_loops.Otad.Slots.{StageDirs, sync_dir}
use atom_loops.Otad.Trusted.{commit_dir}
use atom_loops.Otad.Recovery.{
  recovery_path, recovery_prev, sig_of, swap_recovery, repair_pair, repair_recovery_slot,
  restore_prev, drop_prev,
}
use atom_loops.Otad.Recovery.Swap.{Pairs, Holds, restore_image, restore_sig}
use atom_loops.Otad.Recovery.Points.{
  at_start, image_kept, pair_kept, sig_installed, at_end, Torn, start, kept_image, kept_pair,
  new_sig, end, Never, commit-Steady, swap_lem,
}

-- The files of one replacement: the old pair a, b and the new pair c, d.
module _ (dirs : StageDirs) (a b c d : File) where
  -- The installed pair is the old one or the new one.
  pub data Whole (f : Files) : Type 0 where
    old_pair : f (recovery_path dirs) ≡ some a → f (sig_of (recovery_path dirs)) ≡ some b → Whole f
    new_pair : f (recovery_path dirs) ≡ some c → f (sig_of (recovery_path dirs)) ≡ some d → Whole f

  prev-Whole : (f : Files) → Whole f → Whole (update f (recovery_prev dirs) none)
  prev-Whole f (old_pair p q) = old_pair (rw (=b_refl dirs.esp) p) (rw (=b_refl dirs.esp) q)
  prev-Whole f (new_pair p q) = new_pair (rw (=b_refl dirs.esp) p) (rw (=b_refl dirs.esp) q)

  prev_sig-Whole : (f : Files) → Whole f → Whole (update f (sig_of (recovery_prev dirs)) none)
  prev_sig-Whole f (old_pair p q) = old_pair (rw (=b_refl dirs.esp) p) (rw (=b_refl dirs.esp) q)
  prev_sig-Whole f (new_pair p q) = new_pair (rw (=b_refl dirs.esp) p) (rw (=b_refl dirs.esp) q)

  -- A repair without a fault, from files of which `P` holds, makes the pair whole.
  abbrev Repairs : (Files → Type 0) → Io Bool → Type 0
  Repairs P m = Steady false P m (Never dirs a b c d) Whole (λ _ f. Whole f)

  drop_prev-Whole : Repairs Whole (drop_prev dirs >> pure false)
  unfolding drop_prev
  drop_prev-Whole =
      Steady-bind _
        (Steady-bind {R = λ _ f. Whole f} _
          (Steady-ignore (Steady-remove (recovery_prev dirs) prev-Whole (λ l. cc)))
          (λ _.
            Steady-ignore (Steady-remove (sig_of (recovery_prev dirs)) prev_sig-Whole (λ l. cc))))
        λ _. Steady-pure _ (λ f h. h)

  -- The repair where the installed pair is whole, and where the image is missing.
  whole_lem :
      (s : Pairs) (x y : File)
      → s.image ≡ some x
      → s.sig ≡ some y
      → ((f : Files) → Holds dirs s f → Whole f)
      → Repairs (Holds dirs s) (repair_pair dirs)
  unfolding repair_pair
  whole_lem s x y hx hy whole =
      Steady-found_bind (recovery_path dirs) (some x) _ (λ f h. h.image_is ∙ hx) (λ l. cc)
        (Steady-found_bind (sig_of (recovery_path dirs)) (some y) _ (λ f h. h.sig_is ∙ hy) (λ l. cc)
          (record { at = λ w l h. drop_prev-Whole.at w l (whole w.files h) }))

  missing_lem :
      (s : Pairs)
      → s.image ≡ none
      → s.prev ≡ some a
      → Repairs (Holds dirs s) (restore_prev dirs)
      → Repairs (Holds dirs s) (repair_pair dirs)
  unfolding repair_pair
  missing_lem s hi hp t =
      Steady-found_bind (recovery_path dirs) none _ (λ f h. h.image_is ∙ hi) (λ l. cc)
        (Steady-bind {E = Whole} {R = λ x f. Holds dirs s f × (x ≡ false)} _
          (Steady-pure false (λ f h. (h, refl)))
          λ x. record { at = λ w l h. rw h.1 (found_prev.at w l h.0) })
    where
      found_prev :
          Repairs
            (Holds dirs s)
            (found (recovery_prev dirs) >>= λ prev. if prev then restore_prev dirs else pure false)
      found_prev =
          Steady-found_bind (recovery_prev dirs) (some a) _ (λ f h. h.prev_is ∙ hp) (λ l. cc) t

  -- Its two renames, where the old signature waits beside the old image, and where it was not moved.
  restore_lem :
      (s : Pairs)
      → s.prev ≡ some a
      → s.prev_sig ≡ some b
      → Repairs (Holds dirs s) (restore_prev dirs)
  unfolding restore_prev
  restore_lem s hp hs =
      Steady-bind {R = λ _ f. Holds dirs (record s { prev = none; image = some a }) f} _
        (Steady-label _ (
          Steady-rename (recovery_prev dirs) (recovery_path dirs) a (λ f h. h.prev_is ∙ hp)
            (λ l. cc) (λ f. restore_image dirs s a f)))
        λ _.
          Steady-bind {R = λ _ f. Whole f} _
            (Steady-label _ (
              Steady-rename (sig_of (recovery_prev dirs)) (sig_of (recovery_path dirs)) b
                (λ f h. h.prev_sig_is ∙ hs) (λ l. cc)
                (λ f h.
                  let g = restore_sig dirs (record s { prev = none; image = some a }) b f h in
                  old_pair g.image_is g.sig_is)))
            λ _.
              Steady-bind {R = λ _ f. Whole f} _
                ((commit-Steady dirs a b c d) Whole (Never dirs a b c d) Whole (λ l. cc))
                λ _. Steady-pure _ (λ f h. h)

  unmoved_lem : Repairs (Holds dirs (image_kept dirs a b c d)) (restore_prev dirs)
  unfolding restore_prev
  unmoved_lem =
      Steady-bind {R = λ _ f. Holds dirs (at_start dirs a b c d) f} _
        (Steady-label _ (
          Steady-rename (recovery_prev dirs) (recovery_path dirs) a (λ f h. h.prev_is) (λ l. cc)
            (λ f. restore_image dirs (image_kept dirs a b c d) a f)))
        λ _.
          Steady-bind {R = λ _ f. ⊥} _
            (Steady-label _ (
              Steady-rename_missing (sig_of (recovery_prev dirs)) (sig_of (recovery_path dirs))
                (λ f h. h.prev_sig_is) (λ l. cc) (λ f h. old_pair h.image_is h.sig_is)))
            λ _. Steady-never _

  repair_lem : (f : Files) → (Torn dirs a b c d) f → Repairs (λ g. g ≡ f) (repair_pair dirs)
  repair_lem f (start h) = record {
    at = λ w l e.
        (whole_lem (at_start dirs a b c d) a b refl refl (λ f h. old_pair h.image_is h.sig_is)).at w
          l (rw e h);
  }
  repair_lem f (kept_image h) = record {
    at = λ w l e. (missing_lem (image_kept dirs a b c d) refl refl unmoved_lem).at w l (rw e h);
  }
  repair_lem f (kept_pair h) = record {
    at = λ w l e.
        (missing_lem (pair_kept dirs a b c d) refl refl
            (restore_lem (pair_kept dirs a b c d) refl refl)).at
          w l (rw e h);
  }
  repair_lem f (new_sig h) = record {
    at = λ w l e.
        (missing_lem (sig_installed dirs a b c d) refl refl
            (restore_lem (sig_installed dirs a b c d) refl refl)).at
          w l (rw e h);
  }
  repair_lem f (end h) = record {
    at = λ w l e.
        (whole_lem (at_end dirs a b c d) c d refl refl (λ f h. new_pair h.image_is h.sig_is)).at w l
          (rw e h);
  }

  stopped_swap :
      (x : Outcome (Unit {0}) × World)
      → Stops true
          (Torn dirs a b c d)
          (Never dirs a b c d)
          (λ _ f. Holds dirs (at_end dirs a b c d) f)
          x
      → (Torn dirs a b c d) x.1.files
  stopped_swap (done y, w) h = end h.1
  stopped_swap (failed e, w) h = absurd h.1
  stopped_swap (lost, w) h = h

  stopped_repair :
      (x : Outcome Bool × World)
      → Stops false (Never dirs a b c d) Whole (λ _ f. Whole f) x
      → Whole x.1.files
  stopped_repair (done y, w) h = h.1
  stopped_repair (failed e, w) h = h.1
  stopped_repair (lost, w) h = absurd h

  -- From an installed pair of the recovery image and its signature, no older pair, and a new pair that was
  -- fetched: where no call fails, a replacement that runs to its end, or that a loss of power cuts off at
  -- any call, followed by a repair that is not disturbed, leaves the old pair or the new pair installed,
  -- never an image beside the signature of the other.
  pub repair-swap-Whole :
      (w : World)
      → is_empty dirs.esp ≡ false
      → is_steady true w.faults ≡ true
      → Holds dirs (at_start dirs a b c d) w.files
      → Whole (repair_recovery_slot dirs (restarted (swap_recovery dirs w).1)).1.files
  unfolding repair_recovery_slot
  repair-swap-Whole w e l h =
      let v = (swap_recovery dirs w).1 in
      rw e (
        stopped_repair (repair_pair dirs (restarted v)) (
          (repair_lem v.files
              (stopped_swap (swap_recovery dirs w) ((swap_lem dirs a b c d).at w l h))).at
            (restarted v) refl refl))

  -- A repair that is cut off in its turn: where the new signature was installed already, a loss of power
  -- after the old image came back leaves it beside the new signature, and the next repair, though not
  -- disturbed, leaves it so.
  pub repair-repair-mixed :
      (w : World)
      → is_empty dirs.esp ≡ false
      → Holds dirs (sig_installed dirs a b c d) w.files
      → w.faults ≡ works ∷ works ∷ works ∷ power_loss ∷ []
      → let f = (repair_recovery_slot dirs (restarted (repair_recovery_slot dirs w).1)).1.files in
        (f (recovery_path dirs) ≡ some a) × (f (sig_of (recovery_path dirs)) ≡ some d)
  unfolding repair_recovery_slot found stat call attempt ◌>>=◌ rename settle remove commit_dir
      sync_dir
  repair-repair-mixed w e h s = ground (arith, =b_refl dirs.esp, h)
