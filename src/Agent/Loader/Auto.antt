-- ===== src/Agent/Loader/Auto.antt =====
-- When the agent stages a loader on its own.
use atom_loops.Prelude.{
  ◌≡◌, refl, sym, ap, ◌∙◌, ◌⊎◌, inl, inr, Bool, true, false, not, ◌||◌, Option, none, some, arith,
  if◌then◌else◌, Bool-cases,
}
use atom_loops.Prelude.Text.{codes}
use atom_loops.Prelude.Int.{pos, leb_ℤ, ◌=z◌}
use atom_loops.System.Files.{FilePath, File, Files}
use atom_loops.System.Io.{
  World, Outcome, done, failed, lost, Io, pure, present, found, stat, read_file, read_effect,
  continue, ◌>>=◌,
}
use atom_loops.System.Triple.{
  Ends, Allowed, Triple, Triple-pure, Triple-call, Triple-bind, Triple-attempt, Keeps,
}
use atom_loops.Otad.Outside.{Outside}
use atom_loops.Otad.Slots.{StageDirs}
use atom_loops.Otad.Loader.{
  LoaderStatus, read_loader_status, installed_loader_version, file_loader_version, marker_version,
  read_key_file,
}
use atom_loops.Agent.Status.{Status, is_state}
use atom_loops.Agent.Requests.{AgentConfig, Flock}
use atom_loops.Agent.Loader.{
  loader_auto, loader_auto_flag, esp_dirs, is_wanted, maybe_auto_stage_loader, auto_staged,
}

module _ (P : Files → Type 0) where
  read-Keeps : (p : FilePath) → Keeps P (read_file p)
  unfolding read_file
  read-Keeps p = Triple-call _ (λ f h. h) (λ f h. go (f p) f h)
    where
      go : (o : Option File) (f : Files) → P f → Allowed (λ _ g. P g) (read_effect o f)
      go none f h = tt
      go (some x) f h = h

  marker-Keeps : (p : FilePath) → Keeps P (marker_version p)
  unfolding marker_version read_key_file
  marker-Keeps p =
      Triple-bind _
        (Triple-attempt _ _ (read-Keeps p) (λ b. Triple-pure _ (λ f h. h))
          (λ e. Triple-pure _ (λ f h. h)))
        (λ ks. Triple-pure _ (λ f h. h))

  status-Keeps : (dirs : StageDirs) → Keeps P (read_loader_status dirs)
  unfolding read_loader_status installed_loader_version file_loader_version
  status-Keeps dirs =
      Triple-bind _
        (Triple-attempt _ _ (read-Keeps _) (λ b. Triple-pure _ (λ f h. h))
          (λ e. Triple-pure _ (λ f h. h)))
        λ i.
          Triple-bind _ (marker-Keeps _)
            λ n. Triple-bind _ (marker-Keeps _) λ m. Triple-pure _ (λ f h. h)

-- The test of the flag, then the status of the loader.
abbrev look : StageDirs → Io LoaderStatus
look dirs = loader_auto >>= λ b. read_loader_status (esp_dirs dirs)

-- Staging a loader is due: the machine has the flag, the check found no update but a loader, and the status of
-- the loader that is read, in this world with its faults, names no candidate and a version below the one on
-- offer, which has not failed.
pub record IsDue (dirs : StageDirs) (s : Status) (w : World) : Type 0 where
  pub enabled : present (w.files loader_auto_flag) ≡ true
  pub idle : is_state (codes "idle") s ≡ true
  pub offered : s.loader_available =z pos 0 ≡ false
  pub status : LoaderStatus
  pub read : (look dirs w).0 ≡ done status
  pub no_candidate : status.candidate =z pos 0 ≡ true
  pub newer : leb_ℤ s.loader_available status.installed ≡ false
  pub not_failed : s.loader_available =z status.failed_version ≡ false

module _ (ext : Outside) (c : AgentConfig) (l : Flock) (s : Status) (w : World) where
  abbrev Old : Files → Type 0
  Old f = f ≡ w.files

  abbrev HasFlag : Bool → Type 0
  HasFlag b = b ≡ true → present (w.files loader_auto_flag) ≡ true

  auto_lem : Triple Old loader_auto Old (λ b f. Old f × HasFlag b)
  unfolding loader_auto found stat
  auto_lem =
      Triple-attempt _ _
        (Triple-call {R = λ o f. Old f × (o ≡ w.files loader_auto_flag)} _ (λ f h. h)
          (λ f h. (h, ap (λ (g : Files). g loader_auto_flag) h)))
        (λ o. Triple-pure _ (λ f h. (h.0, λ e. ap present (sym h.1) ∙ e)))
        (λ e. Triple-pure _ (λ f h. (h, λ x. cc)))

  abbrev Guarded : {A : Type 0} → Outcome A × World → Type 0
  Guarded x = (x.1.files ≡ w.files) ⊎ IsDue c.dirs s w

  abbrev is_off : Bool → Bool
  is_off b = not b || s.loader_available =z pos 0 || not (is_state (codes "idle") s)

  due_lem :
      (b : Bool) (st : LoaderStatus)
      → HasFlag b
      → is_off b ≡ false
      → is_wanted s.loader_available st ≡ true
      → (look c.dirs w).0 ≡ done st
      → IsDue c.dirs s w
  unfolding is_wanted
  due_lem b st h o k e = record {
    enabled = h (ground arith);
    idle = ground arith;
    offered = ground arith;
    status = st;
    read = e;
    no_candidate = ground arith;
    newer = ground arith;
    not_failed = ground arith;
  }

  status_lem :
      (b : Bool)
      → HasFlag b
      → is_off b ≡ false
      → (y : Outcome LoaderStatus × World) → (look c.dirs w).0 ≡ y.0
      → Ends Old (λ _ f. Old f) y
      → Guarded (continue y.0 (auto_staged ext c l s.loader_available) y.1)
  unfolding auto_staged
  status_lem b h o (done st, u) e q = elim (Bool-cases (is_wanted s.loader_available st)) [
    | inl k ↦ inr (due_lem b st h o k e)
    | inr k ↦ rw k (inl q)
  ]
  status_lem b h o (failed x, u) e q = inl q
  status_lem b h o (lost, u) e q = inl q

  flag_lem :
      (x : Outcome Bool × World)
      → loader_auto w ≡ x
      → Ends Old (λ b f. Old f × HasFlag b) x
      → Guarded (
          continue x.0
            (λ b.
              if is_off b
              then pure tt
              else read_loader_status (esp_dirs c.dirs) >>= auto_staged ext c l s.loader_available)
            x.1)
  unfolding ◌>>=◌
  flag_lem (done b, v) e q = elim (Bool-cases (is_off b)) [
    | inl k ↦ rw k (inl q.0)
    | inr k ↦ rw k (
        status_lem b q.1 k (read_loader_status (esp_dirs c.dirs) v)
          (ap
            (λ (x : Outcome Bool × World).
              (continue x.0 (λ b. read_loader_status (esp_dirs c.dirs)) x.1).0)
            e)
          ((status-Keeps Old (esp_dirs c.dirs)).at v q.0))
  ]
  flag_lem (failed x, v) e q = inl q
  flag_lem (lost, v) e q = inl q

  -- Wherever maybeAutoStageLoader stops, the files are as they were, or the machine has the flag, the check
  -- found no update but a loader, and the status of the loader that was read names no candidate and an
  -- installed version below the offered one, which is not the one that failed.
  pub maybe_auto_stage_loader-IsDue :
      ((maybe_auto_stage_loader ext c l s w).1.files ≡ w.files) ⊎ IsDue c.dirs s w
  unfolding maybe_auto_stage_loader ◌>>=◌
  maybe_auto_stage_loader-IsDue = flag_lem (loader_auto w) refl (auto_lem.at w refl)
