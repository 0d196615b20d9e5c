-- ===== src/Boot/Firmware/Mapped.antt =====
-- What mountBundle has done where it returns a bundle.
use atom_loops.Prelude.{
  ℕ, ◌≡◌, refl, Bool, true, false, Option, none, some, [], ◌∷◌, ◌++◌, Bool-cases, inl, inr,
}
use atom_loops.Prelude.Text.{Bytes, codes}
use atom_loops.Boot.Firmware.{
  FwOps, MountedBundle, mount_bundle, attached_bundle, mount_point, with_loop, with_hash_loop,
  with_node, mounted_at,
}

-- The bundle, where there is one.
abbrev pub Each : (MountedBundle → Type 0) → Option MountedBundle → Type 0
Each P none = Unit
Each P (some b) = P b

module _ (ops : FwOps) where
  open ops use {Kernel, attach_loop, open_verity, has_erofs, mount}

  -- The image is attached in the state k, then its hash tree; both are mapped under the root hash, and the
  -- mapping reads as an image and is mounted at the place of the bundle.
  pub record IsMapped (k : Kernel) (name img hash root_hash : Bytes) (b : MountedBundle)
      : Type 0 where
    pub dl : Bytes
    pub hl : Bytes
    pub node : Bytes
    pub image_loop : (attach_loop img k).0 ≡ some dl
    pub hash_loop : (attach_loop hash (attach_loop img k).1).0 ≡ some hl
    pub mapped :
        (open_verity
          (name ++ codes "-fwverity")
          dl
          hl
          root_hash
          (attach_loop hash (attach_loop img k).1).1).0
        ≡ some node
    pub image :
        has_erofs
          (open_verity
            (name ++ codes "-fwverity")
            dl
            hl
            root_hash
            (attach_loop hash (attach_loop img k).1).1).1
          node
        ≡ true
    pub mounted :
        (mount node
          (mount_point ops name)
          (codes "erofs")
          []
          (open_verity
            (name ++ codes "-fwverity")
            dl
            hl
            root_hash
            (attach_loop hash (attach_loop img k).1).1).1).0
        ≡ true
    pub bundle_name : b.name ≡ name
    pub bundle_mnt : b.mnt ≡ mount_point ops name
    pub bundle_loops : b.loops ≡ dl ∷ hl ∷ []

  module _ (P : MountedBundle → Type 0) where
    mounted_lem :
        (b : MountedBundle) (mnt : Bytes) (r : Bool) (k : Kernel)
        → (r ≡ true → P (record b { mnt = mnt }))
        → Each P (mounted_at ops b mnt r k).0
    unfolding mounted_at
    mounted_lem b mnt true k h = h refl
    mounted_lem b mnt false k h = tt

    node_lem :
        (b : MountedBundle) (o : Option Bytes) (k : Kernel)
        → ((node : Bytes)
            → o ≡ some node
            → has_erofs k node ≡ true
            → (mount node (mount_point ops b.name) (codes "erofs") [] k).0 ≡ true
            → P (record b { mnt = mount_point ops b.name }))
        → Each P (with_node ops b o k).0
    unfolding with_node
    node_lem b none k h = tt
    node_lem b (some node) k h = elim (Bool-cases (has_erofs k node)) [
      | inl e ↦ rw e (mounted_lem b (mount_point ops b.name) _ _ (h node refl e))
      | inr e ↦ rw e tt
    ]

  module _ (k : Kernel) (name img hash root_hash : Bytes) where
    hash_lem :
        (dl : Bytes) (o : Option Bytes)
        → (attach_loop img k).0 ≡ some dl
        → (attach_loop hash (attach_loop img k).1).0 ≡ o
        → Each
            (IsMapped k name img hash root_hash)
            (with_hash_loop ops name root_hash dl o (attach_loop hash (attach_loop img k).1).1).0
    unfolding with_hash_loop
    hash_lem dl none e f = tt
    hash_lem dl (some hl) e f =
        node_lem (IsMapped k name img hash root_hash) (attached_bundle ops name (dl ∷ hl ∷ [])) _ _
          λ node g h m. record {
            dl = dl;
            hl = hl;
            node = node;
            image_loop = e;
            hash_loop = f;
            mapped = g;
            image = h;
            mounted = m;
            bundle_name = refl;
            bundle_mnt = refl;
            bundle_loops = refl;
          }

    loop_lem :
        (o : Option Bytes)
        → (attach_loop img k).0 ≡ o
        → Each
            (IsMapped k name img hash root_hash)
            (with_loop ops name hash root_hash o (attach_loop img k).1).0
    unfolding with_loop
    loop_lem none e = tt
    loop_lem (some dl) e = hash_lem dl _ e refl

    pub mount_bundle_lem :
        Each (IsMapped k name img hash root_hash) (mount_bundle ops name img hash root_hash k).0
    unfolding mount_bundle
    mount_bundle_lem = loop_lem _ refl

    -- What the bundle is for does not matter.
    pub retargeted :
        {b : MountedBundle} (t : Bytes) (v : ℕ)
        → IsMapped k name img hash root_hash b
        → IsMapped k name img hash root_hash (record b { target = t; version = v })
    retargeted t v d = record {
      dl = d.dl;
      hl = d.hl;
      node = d.node;
      image_loop = d.image_loop;
      hash_loop = d.hash_loop;
      mapped = d.mapped;
      image = d.image;
      mounted = d.mounted;
      bundle_name = d.bundle_name;
      bundle_mnt = d.bundle_mnt;
      bundle_loops = d.bundle_loops;
    }
