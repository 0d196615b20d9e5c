-- ===== src/Deployment/Wal/Crash.antt =====
-- A save that stops anywhere leaves a log that loads: the old one or the new one.
use atom_loops.Prelude.{◌≡◌, refl, ◌⊎◌, false, Option, none, some, [], ◌∷◌, ◌++◌, arith, ap}
use atom_loops.Prelude.Text.{Bytes, codes}
use atom_loops.Prelude.TextLaws.{longer-ne, ne-longer}
use atom_loops.System.Files.{is_temp, FilePath, join, Files, content_at, content_of, ◌=p◌}
use atom_loops.System.Io.{
  World, Outcome, done, failed, lost, Io, label, ◌>>=◌, ◌>>◌, attempt, read_file, call,
}
use atom_loops.System.Triple.{Ends, Triple, Triple-bind, Triple-label, Triple-weaken}
use atom_loops.System.Durable.{Touched, Replaced, Replaced-Touched, replace_lem, settle_lem}
use atom_loops.Deployment.State.{Deployment}
use atom_loops.Deployment.Wal.{Json, load, save, write_file_sync, fsync_dir, backup}

-- The machine after a restart: the files, and no faults.
abbrev pub restarted : World → World
restarted w = record w { faults = [] }

write_file_sync_lem :
    (f₀ : Files) (p : FilePath) (s : Bytes)
    → is_temp p ≡ false
    → Triple (λ f. f ≡ f₀) (write_file_sync p s) (Touched f₀ p s) (λ _ f. Replaced f₀ p s f)
unfolding write_file_sync
write_file_sync_lem f₀ p s h = replace_lem f₀ p s h fsync_dir (
    unfold fsync_dir in
    Triple-bind _ (settle_lem (λ f r. Replaced-Touched f₀ p s f r))
      (λ _. settle_lem (λ f r. Replaced-Touched f₀ p s f r)))

-- The backup has another name.
backup-ne : (dir n : Bytes) → backup (join dir n) =p join dir n ≡ false
backup-ne dir n = ground (arith, longer-ne n b'.' (codes "bak"))

ne-backup : (dir n : Bytes) → join dir n =p backup (join dir n) ≡ false
ne-backup dir n = ground (arith, ne-longer n b'.' (codes "bak"))

module _ (json : Json) where
  open json use {encode, decode}

  abbrev decode? : Option Bytes → Option Deployment
  decode? none = none
  decode? (some b) = decode b

  -- What Load returns without faults.
  abbrev or_else : Option Deployment → Option Deployment → Option Deployment
  or_else none y = y
  or_else (some d) y = some d

  abbrev pub loads : Files → FilePath → Option Deployment
  loads f p = or_else (decode? (content_at f p)) (decode? (content_at f (backup p)))

  abbrev pub succeeded : {A : Type 0} → Outcome A → Option A
  succeeded (done a) = some a
  succeeded (failed e) = none
  succeeded lost = none

  load_lem : (p : FilePath) (w : World) → succeeded (load json p (restarted w)).0 ≡ loads w.files p
  unfolding load attempt read_file call ◌>>=◌
  load_lem p w = ground arith

  module _ (dir name : Bytes) (d old : Deployment) (s : Bytes) (reads : decode s ≡ some d) where
    abbrev wal : FilePath
    wal = join dir name

    abbrev OldOrNew : Files → Type 0
    OldOrNew f = (loads f wal ≡ some old) ⊎ (loads f wal ≡ some d)

    backup-Touched :
        (f₀ f : Files) → loads f₀ wal ≡ some old → Touched f₀ (backup wal) s f → OldOrNew f
    backup-Touched f₀ f h t = ground (arith, ap content_of (t.others wal refl (backup-ne dir name)))

    primary-Touched :
        (f₀ f g : Files)
        → loads f₀ wal ≡ some old
        → Replaced f₀ (backup wal) s f
        → Touched f wal s g
        → OldOrNew g
    primary-Touched f₀ f g h r t = ground (
      arith,
      ap content_of (r.others wal refl (backup-ne dir name)),
      r.target,
      ap content_of (t.others (backup wal) refl (ne-backup dir name)),
    )

    primary-Replaced : (f g : Files) → Replaced f wal s g → loads g wal ≡ some d
    primary-Replaced f g r = ground (arith, r.target)

    abbrev steps : Io (Unit {0})
    steps = do
      label "deployment: write backup" (write_file_sync (backup wal) s)
      label "deployment: write primary" (write_file_sync wal s)

    save_steps :
        (f₀ : Files)
        → loads f₀ wal ≡ some old
        → Triple (λ f. f ≡ f₀) steps OldOrNew (λ _ f. loads f wal ≡ some d)
    save_steps f₀ h =
        Triple-bind _
          (Triple-label _ (
            Triple-weaken (λ f e. e) (λ f. backup-Touched f₀ f h) (λ _ f r. r)
              (write_file_sync_lem f₀ (backup wal) s refl)))
          λ _. record {
            at = λ w r.
                (Triple-label _ (
                    Triple-weaken (λ f e. e) (λ g. primary-Touched f₀ w.files g h r)
                      (λ _ g. primary-Replaced w.files g)
                      (write_file_sync_lem w.files wal s refl))).at
                  w refl;
          }

  -- What a restart loads after a save that stopped: after a success the new log.
  abbrev pub Reloads : FilePath → Deployment → Deployment → Outcome (Unit {0}) × World → Type 0
  Reloads p old d (done a, w) = succeeded (load json p (restarted w)).0 ≡ some d
  Reloads p old d (failed e, w) =
      (succeeded (load json p (restarted w)).0 ≡ some old)
      ⊎ (succeeded (load json p (restarted w)).0 ≡ some d)
  Reloads p old d (lost, w) =
      (succeeded (load json p (restarted w)).0 ≡ some old)
      ⊎ (succeeded (load json p (restarted w)).0 ≡ some d)

  Ends-Reloads :
      (p : FilePath) (old d : Deployment) (x : Outcome (Unit {0}) × World)
      → Ends (λ f. (loads f p ≡ some old) ⊎ (loads f p ≡ some d)) (λ _ f. loads f p ≡ some d) x
      → Reloads p old d x
  Ends-Reloads p old d (done a, w) h = rw load_lem h
  Ends-Reloads p old d (failed e, w) h = rw load_lem h
  Ends-Reloads p old d (lost, w) h = rw load_lem h

  save-steps :
      (dir name : Bytes) (d : Deployment) (b : Bytes) (w : World)
      → encode d ≡ some b
      → save json (join dir name) d w
        ≡ (label "deployment: write backup"
                (write_file_sync (backup (join dir name)) (b ++ 10 ∷ []))
              >> label "deployment: write primary" (write_file_sync (join dir name) (b ++ 10 ∷ [])))
            w
  unfolding save ◌>>=◌
  save-steps dir name d b w e = rw e

  -- For JSON that decodes what it encodes: a save over a log that loads as `old`, stopped by an error
  -- or a loss of power at any call, leaves a log that loads as `old` or as the new one after a restart;
  -- a save that succeeds leaves one that loads as the new one.
  pub load-save :
      (dir name : Bytes) (d old : Deployment) (b : Bytes) (w : World)
      → encode d ≡ some b
      → decode (b ++ 10 ∷ []) ≡ some d
      → succeeded (load json (join dir name) (restarted w)).0 ≡ some old
      → Reloads (join dir name) old d (save json (join dir name) d w)
  load-save dir name d old b w e r h = rw (save-steps dir name d b w e) (
      Ends-Reloads (join dir name) old d _
        ((save_steps dir name d old (b ++ 10 ∷ []) r w.files (rw load_lem at h)).at w refl))
