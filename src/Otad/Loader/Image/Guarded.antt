-- ===== src/Otad/Loader/Image/Guarded.antt =====
-- When the boot loader of the machine is replaced.
use atom_loops.Prelude.{
  ◌≡◌, refl, ◌∙◌, ap, ◌⊎◌, inl, inr, not, Bool, true, false, some, arith, if◌then◌else◌,
}
use atom_loops.Prelude.Text.{Bytes, codes, is_empty}
use atom_loops.Prelude.Int.{ℤ, pos, ◌=z◌, =z_iff}
use atom_loops.Prelude.Numerals.{atoi}
use atom_loops.Prelude.Hex.{encode_hex, equal_fold}
use atom_loops.System.Files.{FilePath, Files, content_at}
use atom_loops.System.Io.{
  Io, World, Outcome, done, failed, lost, message, pure, throw, after, ◌>>=◌,
}
use atom_loops.System.Triple.{
  Triple, Ends, Triple-bind, Triple-pure, Triple-throw, Triple-label, Triple-after, Triple-weaken,
}
use atom_loops.System.Keeps.{Keeps-bind, Keeps-pure}
use atom_loops.Otad.Slots.{StageDirs}
use atom_loops.Otad.Loader.{
  Keys, loader_boot_path, loader_candidate, loader_ran, kernelcache_next, read_keys, key_value,
  version_in, read_key_file, marker_version, cancel_loader_candidate,
}
use atom_loops.Otad.Loader.Image.{
  LoaderReport, nothing, handle_loader_candidate, handle_keys, try_candidate, install_candidate,
  mark_failed,
}
use atom_loops.Otad.Loader.Image.Installed.{
  Reads, Confirmed, IsGuarded, Guarded, Unchanged, Unchanged-Guarded, cancel-Guarded,
  mark_failed-Guarded, drop-Guarded, read_lem, keys_lem, install-Guarded,
}

module _ (sha256 : Bytes → Bytes) (dirs : StageDirs) (f₀ : Files) where
  abbrev Safe : Files → Type 0
  Safe = Guarded sha256 dirs f₀

  abbrev Same : Files → Type 0
  Same = Unchanged sha256 dirs f₀

  -- The check of the hash, past which the image is vouched for.
  hash_lem :
      (b : Bool)
      → Triple Same
          (if b
            then pure tt
            else throw
                (message "loader: candidate image changed since it was staged, not installing"))
          Same
          (λ _ f. Same f × (b ≡ true))
  hash_lem true = Triple-pure tt (λ f h. (h, refl))
  hash_lem false = Triple-throw _ (λ f h. h)

  early :
      {A : Type 0} {m : Io A} {S : A → Files → Type 0} → Triple Same m Same S → Triple Same m Safe S
  early t = Triple-weaken (λ f h. h) (Unchanged-Guarded sha256 dirs f₀) (λ _ f h. h) t

  module _ (t r : Bytes) (candidate_is : content_at f₀ (loader_candidate dirs) ≡ some t)
      (a_version : (version_in (read_keys t) =z pos 0) ≡ false) where
    confirmed_lem :
        content_at f₀ (loader_ran dirs) ≡ some r
        → version_in (read_keys r) ≡ version_in (read_keys t)
        → (img : Bytes) → content_at f₀ (kernelcache_next dirs) ≡ some img
        → equal_fold (encode_hex (sha256 img)) (key_value (read_keys t) (codes "sha256")) ≡ true
        → Confirmed sha256 dirs f₀ img
    confirmed_lem ran_is same img image_is hash = record {
      candidate = t;
      ran = r;
      candidate_is = candidate_is;
      ran_is = ran_is;
      same_version = same;
      a_version = a_version;
      image_is = image_is;
      same_hash = hash;
    }

    candidate_lem :
        (v : ℤ)
        → content_at f₀ (loader_ran dirs) ≡ some r
        → version_in (read_keys r) ≡ version_in (read_keys t)
        → Triple Same (install_candidate sha256 dirs (read_keys t) v) Safe (λ _ f. Safe f)
    unfolding install_candidate
    candidate_lem v ran_is same =
        Triple-bind _ (Triple-label _ (early (read_lem sha256 dirs f₀ _))) λ img.
          Triple-bind {R = λ _ f. Same f × Confirmed sha256 dirs f₀ img} _
            (record {
              at = λ w h.
                  (Triple-weaken (λ f e. e) (Unchanged-Guarded sha256 dirs f₀)
                      (λ _ f k. (k.0, confirmed_lem ran_is same img h.1 k.1))
                      (hash_lem (
                        equal_fold (encode_hex (sha256 img))
                          (key_value (read_keys t) (codes "sha256"))))).at
                    w h.0;
            })
            λ _.
              Triple-bind {R = λ _ f. Safe f} _
                (record {
                  at = λ w h.
                      (install-Guarded sha256 dirs f₀ img (f₀ (kernelcache_next dirs)) h.1.image_is
                          h.1).at
                        w
                        (
                          ap (λ (g : Files). g (loader_boot_path dirs)) h.0,
                          ap (λ (g : Files). g (kernelcache_next dirs)) h.0,
                        );
                })
                λ _. Keeps-bind Safe _ (drop-Guarded sha256 dirs f₀ _ refl) (λ _. Keeps-pure Safe _)

  -- The version of a marker.
  abbrev Marks : FilePath → ℤ → Type 0
  Marks p v =
      (v ≡ pos 0) ⊎ ((r : Bytes) × (content_at f₀ p ≡ some r) × (version_in (read_keys r) ≡ v))

  marks_lem : (p : FilePath) → Triple Same (marker_version p) Same (λ v f. Same f × Marks p v)
  unfolding marker_version key_value atoi
  marks_lem p = Triple-bind _ (keys_lem sha256 dirs f₀ p) λ ks.
      Triple-pure _
        λ f h. (h.0, elim h.1 [ inl e ↦ inl (rw e refl) | inr (t, c, e) ↦ inr (t, c, rw e refl) ])

  tried_lem :
      (t : Bytes)
      → content_at f₀ (loader_candidate dirs) ≡ some t
      → (version_in (read_keys t) =z pos 0) ≡ false
      → Triple Same
          (try_candidate sha256 dirs (read_keys t) (version_in (read_keys t)))
          Safe
          (λ _ f. Safe f)
  unfolding try_candidate
  tried_lem t c a =
      Triple-bind _ (early (marks_lem (loader_ran dirs)))
        λ v. go v (v =z version_in (read_keys t)) refl
    where
      go :
          (v : ℤ) (b : Bool)
          → v =z version_in (read_keys t) ≡ b
          → Triple
              (λ f. Same f × Marks (loader_ran dirs) v)
              (if not b
                then mark_failed sha256 dirs (version_in (read_keys t))
                else install_candidate sha256 dirs (read_keys t) (version_in (read_keys t)))
              Safe
              (λ _ f. Safe f)
      go v false e =
          Triple-weaken (λ f h. (Unchanged-Guarded sha256 dirs f₀) f h.0) (λ f h. h) (λ _ f h. h)
            (mark_failed-Guarded sha256 dirs f₀ _)
      go v true e = record {
        at = λ w h.
            let s = (=z_iff v (version_in (read_keys t))).0 e in
            elim h.1 [
              | inl z ↦ absurd (zero_lem v z s)
              | inr (r, k, g) ↦
                  (candidate_lem t r c a (version_in (read_keys t)) k (g ∙ s)).at w h.0
            ];
      }
        where
          zero_lem : (v : ℤ) → v ≡ pos 0 → v ≡ version_in (read_keys t) → ⊥
          zero_lem v z s = ground (arith, a, =z_iff (version_in (read_keys t)) (pos 0))

  handled_lem :
      (ks : Keys)
      → Reads f₀ (loader_candidate dirs) ks
      → Triple Same (handle_keys sha256 dirs ks) Safe (λ _ f. Safe f)
  unfolding handle_keys key_value atoi
  handled_lem ks (inl e) = rw e (Triple-pure _ (Unchanged-Guarded sha256 dirs f₀))
  handled_lem ks (inr (t, c, e)) = rw e (go (version_in (read_keys t) =z pos 0) refl)
    where
      go :
          (b : Bool)
          → version_in (read_keys t) =z pos 0 ≡ b
          → Triple Same
              (if b
                then pure nothing
                else after
                    (try_candidate sha256 dirs (read_keys t) (version_in (read_keys t)))
                    (cancel_loader_candidate dirs))
              Safe
              (λ _ f. Safe f)
      go true h = Triple-pure _ (Unchanged-Guarded sha256 dirs f₀)
      go false h =
          Triple-after (λ _ f g. g) (tried_lem t c h) (λ _. (cancel-Guarded sha256 dirs f₀))
            (cancel-Guarded sha256 dirs f₀)

  pub handled : Triple Same (handle_loader_candidate sha256 dirs) Safe (λ _ f. Safe f)
  unfolding handle_loader_candidate
  handled = go (is_empty dirs.esp)
    where
      go :
          (b : Bool)
          → Triple Same
              (if b
                then pure nothing
                else read_key_file (loader_candidate dirs) >>= handle_keys sha256 dirs)
              Safe
              (λ _ f. Safe f)
      go true = Triple-pure _ (Unchanged-Guarded sha256 dirs f₀)
      go false =
          Triple-bind _ (early (keys_lem sha256 dirs f₀ (loader_candidate dirs)))
            λ ks. record { at = λ w h. (handled_lem ks h.1).at w h.0 }

-- Wherever the handling of a loader candidate stops, by an error or a loss of power, or comes to its end,
-- the boot loader is the file that was there, or it has the whole content of an image that was staged; and
-- then the marker of the candidate named a version that is not 0 and the hash of that image, and the marker
-- of what ran named the same version.
pub handle_loader_candidate-IsGuarded :
    (sha256 : Bytes → Bytes) (dirs : StageDirs) (w : World)
    → IsGuarded sha256 dirs w.files
        ((handle_loader_candidate sha256 dirs w).1.files (loader_boot_path dirs))
handle_loader_candidate-IsGuarded sha256 dirs w =
    stopped (handle_loader_candidate sha256 dirs w) ((handled sha256 dirs w.files).at w refl)
  where
    stopped :
        (r : Outcome LoaderReport × World)
        → Ends
            (λ f. IsGuarded sha256 dirs w.files (f (loader_boot_path dirs)))
            (λ _ f. IsGuarded sha256 dirs w.files (f (loader_boot_path dirs)))
            r
        → IsGuarded sha256 dirs w.files (r.1.files (loader_boot_path dirs))
    stopped (done a, v) h = h
    stopped (failed e, v) h = h
    stopped (lost, v) h = h
