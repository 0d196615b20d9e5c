-- ===== src/Otad/Loader/Image/Installed.antt =====
-- When the boot loader of the machine is replaced: what vouches for an image, and its installation.
use atom_loops.Prelude.{
  ◌≡◌, refl, ◌∙◌, ap, sym, ◌⊎◌, inl, inr, Bool, true, false, Option, none, some, [],
}
use atom_loops.Prelude.Text.{Bytes, codes, ◌=b◌}
use atom_loops.Prelude.Int.{ℤ, pos, ◌=z◌}
use atom_loops.Prelude.Hex.{encode_hex, equal_fold}
use atom_loops.System.Files.{
  FilePath, join, File, Files, content_at, content_of, is_temp, ◌=p◌, join-ne,
}
use atom_loops.System.Io.{Io, ignore, read_file, read_effect, remove}
use atom_loops.System.Triple.{
  Triple, Triple-bind, Triple-attempt, Triple-pure, Triple-call, Triple-ignore, Triple-label,
  Triple-weaken, Keeps, Allowed,
}
use atom_loops.System.Durable.{Replaced-Touched, replace_lem, settle_lem}
use atom_loops.System.Keeps.{Keeps-bind, Keeps-pure, Keeps-if, Keeps-both, Keeps-at}
use atom_loops.Otad.Fetch.Frame.{write_new-Keeps, drop-Keeps, found-Keeps}
use atom_loops.Otad.Slots.{StageDirs, copy_file_sync, sync_dir}
use atom_loops.Otad.Slots.Frame.{copy-Keeps, settle-Keeps, sync-Keeps}
use atom_loops.Otad.Loader.{
  Keys, loader_boot_path, loader_candidate, loader_ran, loader_prev, kernelcache_next, read_keys,
  key_value, version_in, read_key_file, write_marker, cancel_loader_candidate,
}
use atom_loops.Otad.Loader.Image.{install_loader_image, keep_previous, mark_failed}

-- What a file is read as, where it can be read.
abbrev pub Reads : Files → FilePath → Keys → Type 0
Reads f p ks = (ks ≡ []) ⊎ ((t : Bytes) × (content_at f p ≡ some t) × (ks ≡ read_keys t))

module _ (sha256 : Bytes → Bytes) (dirs : StageDirs) (f₀ : Files) where
  abbrev pub boot : FilePath
  boot = loader_boot_path dirs

  -- The markers and the image that were there vouch for the image.
  pub record Confirmed (img : Bytes) : Type 0 where
    pub candidate : Bytes
    pub ran : Bytes
    pub candidate_is : content_at f₀ (loader_candidate dirs) ≡ some candidate
    pub ran_is : content_at f₀ (loader_ran dirs) ≡ some ran
    pub same_version : version_in (read_keys ran) ≡ version_in (read_keys candidate)
    pub a_version : (version_in (read_keys candidate) =z pos 0) ≡ false
    pub image_is : content_at f₀ (kernelcache_next dirs) ≡ some img
    pub same_hash :
        equal_fold (encode_hex (sha256 img)) (key_value (read_keys candidate) (codes "sha256"))
        ≡ true

  -- The boot loader is the old one, or a whole image that is vouched for.
  abbrev pub IsGuarded : Option File → Type 0
  IsGuarded x = (x ≡ f₀ boot) ⊎ ((img : Bytes) × Confirmed img × (content_of x ≡ some img))

  abbrev pub Guarded : Files → Type 0
  Guarded f = IsGuarded (f boot)

  abbrev pub Unchanged : Files → Type 0
  Unchanged f = f ≡ f₀

  pub Unchanged-Guarded : (f : Files) → Unchanged f → Guarded f
  Unchanged-Guarded f e = inl (ap (λ (g : Files). g boot) e)

  other : (n : Bytes) → n =b codes "BOOTX64.EFI" ≡ false → join dirs.esp n =p boot ≡ false
  other n h = join-ne dirs.esp n _ _ h

  pub drop-Guarded :
      (n : Bytes)
      → n =b codes "BOOTX64.EFI" ≡ false
      → Keeps Guarded (ignore (remove (join dirs.esp n)))
  drop-Guarded n h = Keeps-at boot IsGuarded (λ x. drop-Keeps boot x refl _ (other n h))

  pub cancel-Guarded : Keeps Guarded (cancel_loader_candidate dirs)
  unfolding cancel_loader_candidate
  cancel-Guarded =
      Keeps-if Guarded _ (Keeps-pure Guarded tt)
        (Keeps-bind Guarded _ (drop-Guarded _ refl) (λ _. drop-Guarded _ refl))

  pub mark_failed-Guarded : (v : ℤ) → Keeps Guarded (mark_failed sha256 dirs v)
  unfolding mark_failed write_marker
  mark_failed-Guarded v =
      Keeps-bind Guarded _
        (Keeps-bind Guarded _
          (Keeps-at boot IsGuarded
            (λ x. write_new-Keeps boot x refl _ _ (other (codes "loader-failed") refl)))
          (λ _. Keeps-at boot IsGuarded (λ x. sync-Keeps boot x refl)))
        (λ _. Keeps-pure Guarded _)

  pub read_lem :
      (p : FilePath)
      → Triple Unchanged (read_file p) Unchanged (λ s f. Unchanged f × (content_at f₀ p ≡ some s))
  unfolding read_file
  read_lem p = Triple-call _ (λ f h. h) (λ f h. go (f p) f h (ap (λ (g : Files). g p) h))
    where
      go :
          (o : Option File) (f : Files)
          → Unchanged f
          → o ≡ f₀ p
          → Allowed (λ s g. Unchanged g × (content_at f₀ p ≡ some s)) (read_effect o f)
      go none f h e = tt
      go (some y) f h e = (h, ap content_of (sym e))

  pub keys_lem :
      (p : FilePath)
      → Triple Unchanged (read_key_file p) Unchanged (λ ks f. Unchanged f × Reads f₀ p ks)
  unfolding read_key_file
  keys_lem p =
      Triple-attempt _ _ (read_lem p) (λ s. Triple-pure _ (λ f h. (h.0, inr (s, h.1, refl))))
        (λ e. Triple-pure _ (λ f h. (h, inl refl)))

  module _ (img : Bytes) (y : Option File) (whole : content_of y ≡ some img)
      (c : Confirmed img) where
    abbrev next : FilePath
    next = kernelcache_next dirs

    abbrev Ready : Files → Type 0
    Ready f = (f boot ≡ f₀ boot) × (f next ≡ y)

    Ready-Guarded : (f : Files) → Ready f → Guarded f
    Ready-Guarded f h = inl h.0

    read_next : Triple Ready (read_file next) Guarded (λ s f. Ready f × (s ≡ img))
    unfolding read_file
    read_next = Triple-call _ Ready-Guarded (λ f h. go (f next) f h (ap content_of h.1 ∙ whole))
      where
        go :
            (o : Option File) (f : Files)
            → Ready f
            → content_of o ≡ some img
            → Allowed (λ s g. Ready g × (s ≡ img)) (read_effect o f)
        go none f h e = tt
        go (some z) f h e = (h, cc)

    copy-Guarded : Triple Ready (copy_file_sync next boot) Guarded (λ _ f. Guarded f)
    unfolding copy_file_sync sync_dir
    copy-Guarded = Triple-bind _ read_next λ s. record {
      at = λ w h.
          (Triple-weaken (λ f e. e)
              (λ f t. elim t.target [
                | inl e ↦ inl (e ∙ h.0.0)
                | inr e ↦ inr (img, c, e ∙ ap some h.1)
              ])
              (λ _ f r. inr (img, c, r.target ∙ ap some h.1))
              (replace_lem w.files boot s refl sync_dir (
                Triple-weaken (λ f r. r) (Replaced-Touched w.files boot s) (λ _ f r. r)
                  (Triple-bind _ (settle_lem (λ f r. r)) (λ _. settle_lem (λ f r. r)))))).at
            w refl;
    }

    ready_lem :
        {A : Type 0} {m : Io A}
        → ((q : FilePath) (x : Option File)
            → is_temp q ≡ false
            → loader_prev dirs =p q ≡ false
            → Keeps (λ f. f q ≡ x) m)
        → Keeps Ready m
    ready_lem k = Keeps-both _ _ (k boot (f₀ boot) refl (other (codes "loader-prev.efi") refl)) (
        k next y refl
          (join-ne dirs.esp (codes "loader-prev.efi") dirs.esp (codes "kernelcache-next.efi") refl))

    keep-Ready : (b : Bool) → Keeps Ready (keep_previous dirs b)
    unfolding keep_previous
    keep-Ready false = Triple-pure tt (λ f h. h)
    keep-Ready true = Triple-label _ (ready_lem (λ q x e n. copy-Keeps q x e _ _ refl n))

    pub install-Guarded : Triple Ready (install_loader_image dirs next) Guarded (λ _ f. Guarded f)
    unfolding install_loader_image
    install-Guarded =
        Triple-bind _
          (Triple-weaken (λ f h. h) Ready-Guarded (λ _ f h. h)
            (ready_lem (λ q x e n. found-Keeps q x e boot)))
          λ b.
            Triple-bind _ (Triple-weaken (λ f h. h) Ready-Guarded (λ _ f h. h) (keep-Ready b)) λ _.
              Triple-bind _
                (Triple-weaken (λ f h. h) Ready-Guarded (λ _ f h. h)
                  (ready_lem (λ q x e n. settle-Keeps q x e)))
                λ _.
                  Triple-bind _ (Triple-label _ copy-Guarded)
                    λ _. Triple-ignore (Keeps-at boot IsGuarded (λ x. settle-Keeps boot x refl))
