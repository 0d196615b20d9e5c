-- ===== src/Otad/Slots/Frame.antt =====
-- Which files the promotion of the slots touches.
use atom_loops.Prelude.{◌≡◌, refl, ◌∙◌, true, false, Option, none, some, ℕ}
use atom_loops.Prelude.Text.{Bytes}
use atom_loops.System.Files.{is_temp, FilePath, File, Files, update, temp, work, join, ◌=p◌}
use atom_loops.System.Io.{
  throw, stat, read_file, settle, remove, link, rename, create_temp, attempt, ignore, pure, after,
  read_effect, rename_effect, link_effect, remove_effect, ◌>>◌,
}
use atom_loops.System.Triple.{
  Triple, Triple-bind, Triple-attempt, Triple-ignore, Triple-pure, Triple-throw, Triple-call,
  Triple-after, Triple-fresh, Triple-weaken, Keeps, Allowed,
}
use atom_loops.System.Durable.{Replaced-Touched, replace_lem, settle_lem}
use atom_loops.Otad.Slots.{copy_file_sync, link_file_sync, sync_dir}

module _ (q : FilePath) (x : Option File) (plain : is_temp q ≡ false) where
  -- The file under the path is what it was.
  abbrev pub Same : Files → Type 0
  Same f = f q ≡ x

  pub read-Keeps : (p : FilePath) → Keeps Same (read_file p)
  unfolding read_file
  read-Keeps p = Triple-call _ (λ f h. h) (λ f h. go (f p) f h)
    where
      go : (o : Option File) (f : Files) → Same f → Allowed (λ _ g. Same g) (read_effect o f)
      go none f h = tt
      go (some y) f h = h

  pub stat-Keeps : (p : FilePath) → Keeps Same (stat p)
  unfolding stat
  stat-Keeps p = Triple-call _ (λ f h. h) (λ f h. h)

  pub settle-Keeps : Keeps Same settle
  settle-Keeps = settle_lem (λ f h. h)

  -- A change of another path.
  pub update_lem :
      (p : FilePath) (y : Option File) (f : Files) → p =p q ≡ false → Same f → Same (update f p y)
  update_lem p y f n h = rw n h

  pub temp_ne : (t : FilePath) → is_temp t ≡ true → t =p q ≡ false
  temp_ne (temp n) e = go n q plain
    where
      go : (n : ℕ) (q : FilePath) → is_temp q ≡ false → temp n =p q ≡ false
      go n (join d m) h = refl
      go n (temp m) h = cc
      go n (work l k) h = cc
  temp_ne (work n m) e = go n m q plain
    where
      go : (n : ℕ) (m : Bytes) (q : FilePath) → is_temp q ≡ false → work n m =p q ≡ false
      go n m (join d l) h = refl
      go n m (temp l) h = cc
      go n m (work l k) h = cc
  temp_ne (join d m) e = cc

  pub remove-Keeps : (p : FilePath) → p =p q ≡ false → Keeps Same (remove p)
  unfolding remove
  remove-Keeps p n = Triple-call _ (λ f h. h) (λ f h. go (f p) f h)
    where
      go : (o : Option File) (f : Files) → Same f → Allowed (λ _ g. Same g) (remove_effect p o f)
      go none f h = tt
      go (some y) f h = update_lem p none f n h

  link-Keeps : (p t : FilePath) → t =p q ≡ false → Keeps Same (link p t)
  unfolding link
  link-Keeps p t n = Triple-call _ (λ f h. h) (λ f h. go (f p) f h)
    where
      go : (o : Option File) (f : Files) → Same f → Allowed (λ _ g. Same g) (link_effect p t o f)
      go none f h = tt
      go (some y) f h = update_lem t (some y) f n h

  pub rename-Keeps : (p t : FilePath) → p =p q ≡ false → t =p q ≡ false → Keeps Same (rename p t)
  unfolding rename
  rename-Keeps p t m n = Triple-call _ (λ f h. h) (λ f h. go (f p) f h)
    where
      go : (o : Option File) (f : Files) → Same f → Allowed (λ _ g. Same g) (rename_effect p t o f)
      go none f h = tt
      go (some y) f h = update_lem t (some y) (update f p none) n (update_lem p none f m h)

  pub sync-Keeps : Keeps Same sync_dir
  unfolding sync_dir
  sync-Keeps = Triple-bind _ settle-Keeps (λ _. settle-Keeps)

  pub copy-Keeps :
      (src dst : FilePath)
      → is_temp dst ≡ false
      → dst =p q ≡ false
      → Keeps Same (copy_file_sync src dst)
  unfolding copy_file_sync sync_dir
  copy-Keeps src dst e n = Triple-bind _ (read-Keeps src) λ s. record {
    at = λ w h.
        (Triple-weaken (λ f e. e) (λ f t. t.others q plain n ∙ h) (λ _ f r. r.others q plain n ∙ h)
            (replace_lem w.files dst s e sync_dir (
              Triple-weaken (λ f r. r) (Replaced-Touched w.files dst s) (λ _ f r. r)
                (Triple-bind _ (settle_lem (λ f r. r)) (λ _. settle_lem (λ f r. r)))))).at
          w refl;
  }

  pub create-Keeps : Triple Same create_temp Same (λ t f. (is_temp t ≡ true) × Same f)
  unfolding create_temp
  create-Keeps = Triple-bind _ Triple-fresh λ n.
      Triple-call _ (λ f h. h) (λ f h. (refl, update_lem (temp n) _ f (temp_ne (temp n) refl) h))

  linked-Keeps :
      (src dst t : FilePath)
      → t =p q ≡ false
      → dst =p q ≡ false
      → Keeps Same (do
        attempt settle pure (λ e. ignore (remove t) >> throw e)
        remove t
        link src t
        after (do rename t dst; sync_dir) (remove t))
  linked-Keeps src dst t m n =
      Triple-bind _
        (Triple-attempt _ _ settle-Keeps (λ _. Triple-pure tt (λ f h. h))
          (λ e. Triple-bind _ (Triple-ignore (remove-Keeps t m)) (λ _. Triple-throw e (λ f h. h))))
        λ _. Triple-bind _ (remove-Keeps t m) λ _. Triple-bind _ (link-Keeps src t m) λ _.
          Triple-after (λ _ f h. h) (Triple-bind _ (rename-Keeps t dst m n) (λ _. sync-Keeps))
            (λ _. remove-Keeps t m) (remove-Keeps t m)

  pub link_file-Keeps :
      (src dst : FilePath) → dst =p q ≡ false → Keeps Same (link_file_sync src dst)
  unfolding link_file_sync
  link_file-Keeps src dst n =
      Triple-bind _ create-Keeps
        λ t. record { at = λ w h. (linked-Keeps src dst t (temp_ne t h.0) n).at w h.1 }
