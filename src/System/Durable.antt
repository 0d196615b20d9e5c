-- ===== src/System/Durable.antt =====
-- Replacing a file by a temporary one and a rename: the path has its old file or the whole new content
-- at every point where the sequence can stop, and no other path changes.
use atom_loops.Prelude.{◌≡◌, refl, ◌⊎◌, inl, inr, true, false, Option, none, some, arith, ap}
use atom_loops.Prelude.Text.{Bytes}
use atom_loops.System.Files.{
  is_temp, FilePath, temp, File, Files, update, content_at, content_of, ◌=p◌, =p_iff, =p_refl,
}
use atom_loops.System.Io.{
  Io, create_temp, write, write_effect, rename_effect, remove_effect, settle, rename, remove, after,
  ◌>>=◌, ◌>>◌,
}
use atom_loops.System.Triple.{
  Triple, Triple-after, Keeps, Allowed, Triple-call, Triple-bind, Triple-fresh, Triple-weaken,
}

-- The sequence that the program writes out wherever it replaces a file by a temporary one. `close`
-- stands for what follows the rename.
abbrev pub replace : FilePath → Bytes → Io (Unit {0}) → Io (Unit {0})
replace p s close = do
  tmp ← create_temp
  after (do write tmp s; settle; settle; rename tmp p; close) (remove tmp)

pub settle_lem : {P I : Files → Type 0} → ((f : Files) → P f → I f) → Triple P settle I (λ _ f. P f)
unfolding settle
settle_lem k = Triple-call _ k λ f h. h

module _ (f₀ : Files) (p : FilePath) (s : Bytes) where
  abbrev pub Others : Files → Type 0
  Others f = (q : FilePath) → is_temp q ≡ false → p =p q ≡ false → f q ≡ f₀ q

  -- Where the sequence stops early.
  pub record Touched (f : Files) : Type 0 where
    pub others : Others f
    pub target : (f p ≡ f₀ p) ⊎ (content_at f p ≡ some s)

  -- Where it is over.
  pub record Replaced (f : Files) : Type 0 where
    pub others : Others f
    pub target : content_at f p ≡ some s

  record Untouched (f : Files) : Type 0 where
    others : Others f
    target : f p ≡ f₀ p

  record Staged (tmp : FilePath) (f : Files) : Type 0 where
    name : is_temp tmp ≡ true
    before : Untouched f
    staged : content_at f tmp ≡ some s

  record Named (tmp : FilePath) (f : Files) : Type 0 where
    name : is_temp tmp ≡ true
    before : Untouched f

  Untouched-Touched : (f : Files) → Untouched f → Touched f
  Untouched-Touched f u = record { others = u.others; target = inl u.target }

  pub Replaced-Touched : (f : Files) → Replaced f → Touched f
  Replaced-Touched f u = record { others = u.others; target = inr u.target }

  module _ (plain : is_temp p ≡ false) where
    -- A temporary file is no path of the program.
    temp_ne : (t q : FilePath) → is_temp t ≡ true → is_temp q ≡ false → t =p q ≡ false
    temp_ne t q h k = ground (arith, =p_iff t q)

    Untouched-update :
        (t : FilePath) (x : Option File) (f : Files)
        → is_temp t ≡ true
        → Untouched f
        → Untouched (update f t x)
    Untouched-update t x f h u = record {
      others = λ q k e. ground (arith, temp_ne t q h k, u.others q k e);
      target = ground (arith, temp_ne t p h plain, u.target);
    }

    Touched-update :
        (t : FilePath) (x : Option File) (f : Files)
        → is_temp t ≡ true
        → Touched f
        → Touched (update f t x)
    Touched-update t x f h u = record {
      others = λ q k e. ground (arith, temp_ne t q h k, u.others q k e);
      target = ground (arith, temp_ne t p h plain, u.target);
    }

    Replaced-update :
        (t : FilePath) (x : Option File) (f : Files)
        → is_temp t ≡ true
        → Replaced f
        → Replaced (update f t x)
    Replaced-update t x f h u = record {
      others = λ q k e. ground (arith, temp_ne t q h k, u.others q k e);
      target = ground (arith, temp_ne t p h plain, u.target);
    }

    create_lem : Triple Untouched create_temp Touched Named
    unfolding create_temp
    create_lem = Triple-bind _ Triple-fresh λ n.
        Triple-call _ Untouched-Touched
          λ f u. record { name = refl; before = Untouched-update (temp n) _ f refl u }

    write-Allowed :
        (tmp : FilePath) (o : Option File) (f : Files)
        → Named tmp f
        → Allowed (λ _ g. Staged tmp g) (write_effect tmp s o f)
    write-Allowed tmp none f n = tt
    write-Allowed tmp (some x) f n = record {
      name = n.name;
      before = Untouched-update tmp _ f n.name n.before;
      staged = rw (=p_refl tmp);
    }

    write_lem : (tmp : FilePath) → Triple (Named tmp) (write tmp s) Touched (λ _ f. Staged tmp f)
    unfolding write
    write_lem tmp =
        Triple-call _ (λ f n. Untouched-Touched f n.before) λ f n. write-Allowed tmp (f tmp) f n

    rename-Allowed :
        (tmp : FilePath) (o : Option File) (f : Files)
        → Named tmp f
        → content_of o ≡ some s
        → Allowed (λ _ g. Replaced g) (rename_effect tmp p o f)
    rename-Allowed tmp none f n h = tt
    rename-Allowed tmp (some x) f n h = record {
      others = λ q k e. rw (e, temp_ne tmp q n.name k) (n.before.others q k e);
      target = rw (=p_refl p) h;
    }

    rename_lem : (tmp : FilePath) → Triple (Staged tmp) (rename tmp p) Touched (λ _ f. Replaced f)
    unfolding rename
    rename_lem tmp =
        Triple-call _ (λ f n. Untouched-Touched f n.before)
          λ f n. rename-Allowed tmp (f tmp) f (record { name = n.name; before = n.before }) n.staged

    remove-Allowed :
        (tmp : FilePath) (o : Option File) (f : Files) (Q : Files → Type 0)
        → ((x : Option File) → Q (update f tmp x))
        → Allowed (λ _ g. Q g) (remove_effect tmp o f)
    remove-Allowed tmp none f Q h = tt
    remove-Allowed tmp (some x) f Q h = h none

    remove-Touched : (tmp : FilePath) → is_temp tmp ≡ true → Keeps Touched (remove tmp)
    unfolding remove
    remove-Touched tmp h =
        Triple-call _ (λ f t. t)
          λ f t. remove-Allowed tmp (f tmp) f Touched (λ x. Touched-update tmp x f h t)

    remove-Replaced : (tmp : FilePath) → is_temp tmp ≡ true → Keeps Replaced (remove tmp)
    unfolding remove
    remove-Replaced tmp h =
        Triple-call _ (λ f t. t)
          λ f t. remove-Allowed tmp (f tmp) f Replaced (λ x. Replaced-update tmp x f h t)

    module _ (close : Io (Unit {0}))
        (closes : Triple Replaced close Touched (λ _ f. Replaced f)) where
      body_lem :
          (tmp : FilePath)
          → is_temp tmp ≡ true
          → Triple
              (Named tmp)
              (do write tmp s; settle; settle; rename tmp p; close)
              Touched
              (λ _ f. Replaced f)
      body_lem tmp h = Triple-bind _ (write_lem tmp) λ _.
          Triple-bind _ (settle_lem (λ f n. Untouched-Touched f n.before)) λ _.
            Triple-bind _ (settle_lem (λ f n. Untouched-Touched f n.before))
              λ _. Triple-bind _ (rename_lem tmp) λ _. closes

      guarded_lem :
          (tmp : FilePath)
          → is_temp tmp ≡ true
          → Triple
              (Named tmp)
              (after (do write tmp s; settle; settle; rename tmp p; close) (remove tmp))
              Touched
              (λ _ f. Replaced f)
      guarded_lem tmp h =
          Triple-after (λ _. Replaced-Touched) (body_lem tmp h) (λ _. remove-Replaced tmp h)
            (remove-Touched tmp h)

      -- From the files f₀, wherever the sequence stops, the path has its old file or the new content,
      -- no other path has changed but temporary ones, and after a success the path has the new content.
      pub replace_lem : Triple (λ f. f ≡ f₀) (replace p s close) Touched (λ _ f. Replaced f)
      replace_lem =
          Triple-weaken
            (λ f e. record {
              others = λ q k h. ap (λ (g : Files). g q) e;
              target = ap (λ (g : Files). g p) e;
            })
            (λ f t. t) (λ _ f t. t)
            (Triple-bind _ create_lem λ tmp. record { at = λ w n. (guarded_lem tmp n.name).at w n })
