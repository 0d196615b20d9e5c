-- ===== src/Otad/Fetch/Frame.antt =====
-- Which files a download touches.
use atom_loops.Prelude.{◌≡◌, false, Option, none, some, ℕ, zero, suc}
use atom_loops.Prelude.Text.{Bytes, codes}
use atom_loops.System.Files.{FilePath, File, Files, is_temp, suffixed, ◌=p◌}
use atom_loops.System.Io.{
  Io, ignore, write, write_new, create, call, write_effect, truncate_effect, remove, found,
}
use atom_loops.System.Triple.{
  Triple-bind, Triple-attempt, Triple-ignore, Triple-call, Triple-fresh, Keeps, Allowed,
}
use atom_loops.System.Keeps.{
  Keeps-bind, Keeps-pure, Keeps-throw, Keeps-if, Keeps-on_error, Keeps-guard,
}
use atom_loops.Otad.Slots.Frame.{
  Same, update_lem, settle-Keeps, remove-Keeps, rename-Keeps, sync-Keeps, read-Keeps, stat-Keeps,
}
use atom_loops.Otad.Fetch.{
  Url, Response, Network, get, get_within, requested, answered, settle_response, follow,
  no_hops_left, copied, close_and_drop, fetch_to,
}
use atom_loops.Otad.Trusted.{check_hash, verify_sha256, commit_dir}
use atom_loops.Prelude.Hex.{decode_hex}

module _ (q : FilePath) (x : Option File) (plain : is_temp q ≡ false) where
  abbrev Still : Files → Type 0
  Still = Same q x plain

  pub write-Keeps : (p : FilePath) (s : Bytes) → p =p q ≡ false → Keeps Still (write p s)
  unfolding write
  write-Keeps p s n = Triple-call _ (λ f h. h) (λ f h. go (f p) f h)
    where
      go : (o : Option File) (f : Files) → Still f → Allowed (λ _ g. Still g) (write_effect p s o f)
      go none f h = tt
      go (some y) f h = update_lem q x plain p _ f n h

  truncate-Keeps :
      (i : ℕ) (p : FilePath)
      → p =p q ≡ false
      → Keeps Still (call (λ f. truncate_effect i p (f p) f))
  truncate-Keeps i p n = Triple-call _ (λ f h. h) (λ f h. go (f p) f h)
    where
      go :
          (o : Option File) (f : Files)
          → Still f
          → Allowed (λ _ g. Still g) (truncate_effect i p o f)
      go none f h = update_lem q x plain p _ f n h
      go (some y) f h = update_lem q x plain p _ f n h

  pub create_file-Keeps : (p : FilePath) → p =p q ≡ false → Keeps Still (create p)
  unfolding create
  create_file-Keeps p n = Triple-bind _ Triple-fresh (λ i. truncate-Keeps i p n)

  pub write_new-Keeps : (p : FilePath) (s : Bytes) → p =p q ≡ false → Keeps Still (write_new p s)
  unfolding write_new
  write_new-Keeps p s n =
      Triple-bind _ Triple-fresh
        λ i. Keeps-bind Still _ (truncate-Keeps i p n) (λ _. write-Keeps p s n)

  pub drop-Keeps : (p : FilePath) → p =p q ≡ false → Keeps Still (ignore (remove p))
  drop-Keeps p n = Triple-ignore (remove-Keeps q x plain p n)

  pub found-Keeps : (p : FilePath) → Keeps Still (found p)
  unfolding found
  found-Keeps p =
      Triple-attempt _ _ (stat-Keeps q x plain p) (λ o. Keeps-pure Still _)
        (λ e. Keeps-pure Still _)

  pub commit-Keeps : Keeps Still commit_dir
  unfolding commit_dir
  commit-Keeps = Keeps-bind Still _ (sync-Keeps q x plain) λ _.
      Keeps-bind Still _ (settle-Keeps q x plain)
        λ _. Keeps-bind Still _ (settle-Keeps q x plain) λ _. settle-Keeps q x plain

  check-Keeps :
      (sha256 : Bytes → Bytes) (p : FilePath) (o : Option Bytes)
      → Keeps Still (check_hash sha256 p o)
  unfolding check_hash
  check-Keeps sha256 p none = Keeps-throw Still _
  check-Keeps sha256 p (some want) =
      Keeps-if Still _ (Keeps-throw Still _)
        (Keeps-bind Still _ (read-Keeps q x plain p) (λ b. Keeps-guard Still _ _))

  pub verify-Keeps :
      (sha256 : Bytes → Bytes) (p : FilePath) (want : Bytes)
      → Keeps Still (verify_sha256 sha256 p want)
  unfolding verify_sha256
  verify-Keeps sha256 p want = check-Keeps sha256 p (decode_hex want)

  module _ (net : Network) where
    answered-Keeps : (o : Option Response) → Keeps Still (answered net o)
    unfolding answered
    answered-Keeps none = Keeps-throw Still _
    answered-Keeps (some r) = Keeps-pure Still r

    requested-Keeps : (url : Bytes) (o : Option Bytes) → Keeps Still (requested net url o)
    unfolding requested
    requested-Keeps url none = Keeps-throw Still _
    requested-Keeps url (some s) =
        Triple-bind _ Triple-fresh
          λ n. Keeps-bind Still _ (answered-Keeps _) (λ r. Keeps-pure Still _)

    no_hops_left-Keeps : (o : Option Url) → Keeps Still (no_hops_left net o)
    unfolding no_hops_left
    no_hops_left-Keeps none = Keeps-throw Still _
    no_hops_left-Keeps (some u) = Keeps-throw Still _

    follow-Keeps :
        (s : Bytes) (next : Bytes → Io Response)
        → ((u : Bytes) → Keeps Still (next u))
        → (o : Option Url) → Keeps Still (follow net s next o)
    unfolding follow
    follow-Keeps s next h none = Keeps-throw Still _
    follow-Keeps s next h (some u) = Keeps-if Still _ (Keeps-throw Still _) (h u.text)

    settle_response-Keeps :
        (redirect : Option Url → Io Response) (r : Response)
        → ((o : Option Url) → Keeps Still (redirect o))
        → Keeps Still (settle_response net redirect r)
    unfolding settle_response
    settle_response-Keeps redirect r h = Keeps-if Still _ (h r.location) (Keeps-pure Still r)

    get_within-Keeps : (n : ℕ) (url : Bytes) → Keeps Still (get_within net n url)
    unfolding get_within
    get_within-Keeps zero url =
        Keeps-bind Still _ (requested-Keeps url _)
          (λ a. settle_response-Keeps _ a.1 no_hops_left-Keeps)
    get_within-Keeps (suc n) url =
        Keeps-bind Still _ (requested-Keeps url _)
          (λ a. settle_response-Keeps _ a.1 (follow-Keeps a.0 _ (get_within-Keeps n)))

    copied-Keeps : (p : FilePath) (r : Response) → p =p q ≡ false → Keeps Still (copied net p r)
    unfolding copied
    copied-Keeps p r n =
        Keeps-bind Still _ (write-Keeps p r.body n) (λ _. Keeps-guard Still r.complete _)

    close-Keeps : (p : FilePath) → p =p q ≡ false → Keeps Still (close_and_drop net p)
    unfolding close_and_drop
    close-Keeps p n =
        Keeps-bind Still _ (Triple-ignore (settle-Keeps q x plain)) (λ _. drop-Keeps p n)

    -- A download touches its target and the file beside it that it writes first.
    pub fetch_to-Keeps :
        (url : Bytes) (p : FilePath)
        → p =p q ≡ false
        → suffixed p (codes ".tmp") =p q ≡ false
        → Keeps Still (fetch_to net url p)
    unfolding fetch_to get
    fetch_to-Keeps url p n m = Keeps-bind Still _ (get_within-Keeps 5 url) λ r.
        Keeps-bind Still _ (Keeps-guard Still _ _) λ _.
          Keeps-bind Still _ (create_file-Keeps _ m) λ _.
            Keeps-bind Still _ (Keeps-on_error Still (copied-Keeps _ r m) (close-Keeps _ m)) λ _.
              Keeps-bind Still _ (Keeps-on_error Still (settle-Keeps q x plain) (close-Keeps _ m))
                λ _. Keeps-bind Still _ (Triple-ignore (settle-Keeps q x plain)) λ _.
                  Keeps-bind Still _
                    (Keeps-on_error Still (rename-Keeps q x plain _ p m n) (drop-Keeps _ m))
                    λ _. Keeps-bind Still _ (sync-Keeps q x plain) (λ _. Keeps-pure Still _)
