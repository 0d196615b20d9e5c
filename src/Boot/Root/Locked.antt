-- ===== src/Boot/Root/Locked.antt =====
-- A locked device only ever gets a verity mapping back.
use mathlib.Core.Path.{subst}
use mathlib.Core.Option.{some-injective}
use atom_loops.Prelude.{
  ℕ, zero, suc, Bool, true, false, not, ◌&&◌, ◌≡◌, refl, Option, none, some, List, [], ◌∷◌,
  if◌then◌else◌,
}
use atom_loops.Prelude.Text.{Bytes, is_empty, mem_bytes, ◌=b◌}
use atom_loops.Boot.Verity.{valid_root_hash}
use atom_loops.Boot.Kernel.{Ops, St, ◌>>=◌, ◌>>◌, pure}
use atom_loops.Boot.Media.{Config, Media, Root, with_defaults, root_mapper, find_data, find_iso}
use atom_loops.Boot.Root.{
  try_pairs, confirm, select_verified, select_root, attempt_root, settle_root, finish,
  verified_root, same_pair_origin, candidates, rank_pairs, select_unlocked,
}

-- The root is the node of a mapping of its image and hash devices under the signed root hash, and the
-- mapping read as an image in the state that the search ended in.
pub record Mapped (ops : Ops) (root_hash : Bytes) (r : Root) (k : ops.Kernel) : Type 0 where
  pub from : ops.Kernel
  pub opened : ops.open_verity root_mapper r.image r.hash root_hash from ≡ (some r.source, k)
  pub reads : ops.has_erofs k r.source ≡ true
  pub mapper : r.mapper ≡ root_mapper

-- A state and a result that is such a root, if it is one.
abbrev Good : (ops : Ops) → Bytes → Option Root × ops.Kernel → Type 0
Good ops h x = (r : Root) → x.0 ≡ some r → Mapped ops h r x.1

Good-if :
    (ops : Ops) (h : Bytes) (b : Bool) (f g : St ops.Kernel (Option Root)) (k : ops.Kernel)
    → (b ≡ true → Good ops h (f k))
    → (b ≡ false → Good ops h (g k))
    → Good ops h ((if b then f else g) k)
Good-if ops h true f g k y n = y refl
Good-if ops h false f g k y n = n refl

module _ (ops : Ops) (c : Config) (m : Media) where
  open ops use {Kernel, open_verity, close_verity, has_erofs}

  confirm_lem :
      (d h : Bytes) (o : Option Bytes) (rest : St Kernel (Option Root)) (k₁ k₂ : Kernel)
      → open_verity root_mapper d h c.root_hash k₁ ≡ (o, k₂)
      → ((k : Kernel) → Good ops c.root_hash (rest k))
      → Good ops c.root_hash (confirm ops d h o rest k₂)
  unfolding confirm
  confirm_lem d h none rest k₁ k₂ e ih = ih k₂
  confirm_lem d h (some node) rest k₁ k₂ e ih =
      Good-if ops c.root_hash (has_erofs k₂ node) (pure (some (verified_root ops node d h)))
        (close_verity root_mapper >> rest) k₂
        (λ y r q.
          subst (λ (s : Root). Mapped ops c.root_hash s k₂) (some-injective _ _ q)
            (record { from = k₁; opened = e; reads = y; mapper = refl }))
        (λ _. ih (close_verity root_mapper k₂).1)

  try_pairs-Good :
      (ps : List (Bytes × Bytes)) (k : Kernel) → Good ops c.root_hash (try_pairs ops c m ps k)
  unfolding try_pairs
  try_pairs-Good [] k = λ r q. cc
  try_pairs-Good ((d, h) ∷ ps) k =
      let k₁ = (close_verity root_mapper k).1 in
      let x = open_verity root_mapper d h c.root_hash k₁ in
      Good-if ops c.root_hash (same_pair_origin ops k m d h)
        (do
          close_verity root_mapper
          node ← open_verity root_mapper d h c.root_hash
          confirm ops d h node (try_pairs ops c m ps))
        (try_pairs ops c m ps) k
        (λ _. confirm_lem d h x.0 (try_pairs ops c m ps) k₁ x.1 refl (try_pairs-Good ps))
        (λ _. try_pairs-Good ps k)

  select_verified-Good : (k : Kernel) → Good ops c.root_hash (select_verified ops c m k)
  unfolding select_verified
  select_verified-Good k =
      let p = candidates ops k c m in try_pairs-Good (rank_pairs ops k c p.0 p.1) k

-- What SelectRoot returns on a locked device: a mapping, and the flags that the media give it.
pub record Selected (ops : Ops) (cfg : Config) (m : Media) (r : Root) (k : ops.Kernel)
    : Type 0 where
  pub mapped : Mapped ops cfg.root_hash r k
  pub optical : r.optical ≡ (not (is_empty m.iso_data) && r.image =b m.iso_data)
  pub from_slot : r.from_slot ≡ mem_bytes r.image m.slot_datas

module _ (ops : Ops) (c : Config) (locked : c.unlocked ≡ false) where
  abbrev Fine : (Media × Option Root) × ops.Kernel → Type 0
  Fine x = (r : Root) → x.0.1 ≡ some r → Selected ops c x.0.0 r x.1

  finish_lem :
      (m : Media) (o : Option Root) (again : St ops.Kernel (Media × Option Root)) (k : ops.Kernel)
      → Good ops c.root_hash (o, k)
      → ((k : ops.Kernel) → Fine (again k))
      → Fine (finish ops m o again k)
  unfolding finish settle_root
  finish_lem m none again k g ih = ih k
  finish_lem m (some r) again k g ih = λ s q.
      subst (λ (s : Root). Selected ops c m s k) (some-injective _ _ q)
        (let g = g r refl in
          record {
            mapped = record {
              from = g.from;
              opened = g.opened;
              reads = g.reads;
              mapper = g.mapper;
            };
            optical = refl;
            from_slot = refl;
          })

  attempt_lem : (n : ℕ) (m : Media) (k : ops.Kernel) → Fine (attempt_root ops c n m k)
  unfolding attempt_root
  attempt_lem zero m k = λ r q. cc
  attempt_lem (suc n) m k =
      let x = find_data ops c m k in
      let y = find_iso ops c x.0 x.1 in
      let select = if c.unlocked then select_unlocked ops c y.0 else select_verified ops c y.0 in
      let r = select y.1 in
      finish_lem y.0 r.0 (ops.sleep c.interval >> attempt_root ops c n y.0) r.1
        (Good-if ops c.root_hash c.unlocked (select_unlocked ops c y.0) (select_verified ops c y.0)
          y.1 (λ u. cc) (λ _. select_verified-Good ops c y.0 y.1))
        (λ k. attempt_lem n y.0 (ops.sleep c.interval k).1)

-- The search behind the test of the root hash.
abbrev guarded :
    (ops : Ops)
    → Bool
    → Media
    → St ops.Kernel (Media × Option Root)
    → St ops.Kernel (Media × Option Root)
guarded ops b m f = if not b then pure (m, none) else f

guarded_lem :
    (ops : Ops) (cfg : Config) (b : Bool) (m : Media) (f : St ops.Kernel (Media × Option Root))
    (k : ops.Kernel) (r : Root)
    → ((s : Root) → (f k).0.1 ≡ some s → Selected ops cfg (f k).0.0 s (f k).1)
    → (guarded ops b m f k).0.1 ≡ some r
    → (b ≡ true) × Selected ops cfg (guarded ops b m f k).0.0 r (guarded ops b m f k).1
guarded_lem ops cfg true m f k r g q = (refl, g r q)
guarded_lem ops cfg false m f k r g q = cc

-- On a locked device SelectRoot returns a root only for a valid signed root hash, and that root is the
-- node of a dm-verity mapping of its image and hash devices under the signed root hash, which reads as
-- an image when the search ends; the flags tell whether the image is the optical one or a slot file.
pub select_root-Selected :
    (ops : Ops) (cfg : Config) (m : Media) (k : ops.Kernel) (r : Root)
    → cfg.unlocked ≡ false
    → (select_root ops cfg m k).0.1 ≡ some r
    → (valid_root_hash cfg.root_hash ≡ true)
      × Selected ops cfg (select_root ops cfg m k).0.0 r (select_root ops cfg m k).1
unfolding select_root with_defaults
select_root-Selected ops cfg m k r locked q =
    let c = with_defaults cfg in
    guarded_lem ops cfg (valid_root_hash cfg.root_hash) m (attempt_root ops c c.attempts m) k r
      (λ s e.
        let t = attempt_lem ops c locked c.attempts m k s e in
        record {
          mapped = record {
            from = t.mapped.from;
            opened = t.mapped.opened;
            reads = t.mapped.reads;
            mapper = t.mapped.mapper;
          };
          optical = t.optical;
          from_slot = t.from_slot;
        })
      q
