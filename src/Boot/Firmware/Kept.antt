-- ===== src/Boot/Firmware/Kept.antt =====
-- What stands behind each bundle that MountFirmware collects for the new root.
use atom_loops.Prelude.{
  ℕ, ◌≡◌, refl, sym, true, Option, none, some, List, [], ◌∷◌, ◌++◌, Bool-cases, inl, inr, leb,
}
use atom_loops.Prelude.Text.{Bytes, codes, ◌=b◌}
use atom_loops.Prelude.Assoc.{Assoc, lookup, insert}
use atom_loops.Trust.{Crypto}
use atom_loops.System.Io.{Outcome, done, failed, lost}
use atom_loops.Otad.Manifest.{FirmwareBundleSpec, Decoder}
use atom_loops.Otad.Anchor.{active_slot}
use atom_loops.Otad.Anchor.Vouched.{IsVouchedFor, verified_firmware_bundle-IsVouchedFor}
use atom_loops.Boot.Verity.{valid_root_hash}
use atom_loops.Boot.Firmware.{
  FwOps, MountedBundle, Mounted, place_bundle, add_bundle, add_each_bundle, with_anchor,
  anchored_hash, anchor_root, collect_bundles, replace_overlay, place_overlay, overlay_wanted,
  place_firmware, without_space, place_text, parse_overlay,
}
use atom_loops.Boot.Firmware.Mapped.{Each, IsMapped, mount_bundle_lem, retargeted}

abbrev pub All : (MountedBundle → Type 0) → List MountedBundle → Type 0
All P [] = Unit
All P (b ∷ bs) = P b × All P bs

abbrev pub AllOver : (MountedBundle → Type 0) → Assoc MountedBundle → Type 0
AllOver P [] = Unit
AllOver P ((t, b) ∷ m) = P b × AllOver P m

module _ (ops : FwOps) where
  module _ (P : MountedBundle → Type 0) where
    AllOver-insert :
        (t : Bytes) (b : MountedBundle) (m : Assoc MountedBundle)
        → P b
        → AllOver P m
        → AllOver P (insert t b m)
    unfolding insert
    AllOver-insert t b [] p q = (p, tt)
    AllOver-insert t b ((u, c) ∷ m) p (r, q) = elim (Bool-cases (u =b t)) [
      | inl e ↦ rw e (p, q)
      | inr e ↦ rw e (r, AllOver-insert t b m p q)
    ]

    abbrev pub Collected : Mounted → Type 0
    Collected m = All P m.firmware × AllOver P m.overlays

    overlay_lem :
        (b : MountedBundle) (m : Mounted) (o : Option MountedBundle) (k : ops.Kernel)
        → P b
        → Collected m
        → Collected (replace_overlay ops b m o k).0
    unfolding replace_overlay
    overlay_lem b m none k p c = (c.0, AllOver-insert b.target b m.overlays p c.1)
    overlay_lem b m (some old) k p c = elim (Bool-cases (leb b.version old.version)) [
      | inl e ↦ rw e c
      | inr e ↦ rw e (c.0, AllOver-insert b.target b m.overlays p c.1)
    ]

    module _
        (retarget : (b : MountedBundle) (t : Bytes) (v : ℕ)
          → P b
          → P (record b { target = t; version = v })) where
      place_overlay_lem :
          (b : MountedBundle) (m : Mounted) (o : Option (Bytes × ℕ)) (k : ops.Kernel)
          → P b
          → Collected m
          → Collected (place_overlay ops b m o k).0
      unfolding place_overlay
      place_overlay_lem b m none k p c = c
      place_overlay_lem b m (some (t, v)) k p c = elim (Bool-cases (overlay_wanted ops k t v)) [
        | inl e ↦ rw e (
            overlay_lem (record b { target = t; version = v }) m (lookup t m.overlays) k
              (retarget b t v p) c)
        | inr e ↦ rw e c
      ]

      place_firmware_lem :
          (b : MountedBundle) (m : Mounted) (o : Option Bytes) (k : ops.Kernel)
          → P b
          → Collected m
          → Collected (place_firmware ops b m o k).0
      unfolding place_firmware
      place_firmware_lem b m none k p c = ((p, c.0), c.1)
      place_firmware_lem b m (some abi) k p c =
          elim (Bool-cases (without_space abi =b ops.running k)) [ inl e ↦ rw e c | inr e ↦ rw e c ]

      place_text_lem :
          (b : MountedBundle) (m : Mounted) (o : Option Bytes) (k : ops.Kernel)
          → P b
          → Collected m
          → Collected (place_text ops b m o k).0
      unfolding place_text
      place_text_lem b m none k p c = place_firmware_lem b m _ k p c
      place_text_lem b m (some text) k p c = place_overlay_lem b m (parse_overlay text) k p c

      place_bundle_lem :
          (m : Mounted) (o : Option MountedBundle) (k : ops.Kernel)
          → Each P o
          → Collected m
          → Collected (place_bundle ops m o k).0
      unfolding place_bundle
      place_bundle_lem m none k p c = c
      place_bundle_lem m (some b) k p c = place_text_lem b m _ k p c

  module _ (crypto : Crypto) (decoder : Decoder) (now : ℕ) (root_pub fwroot : Bytes) where
    -- The bundle was mounted from the image and the hash tree in its directory, under the root hash that the
    -- active anchor in that directory vouches for, in the state in which it was read.
    pub record IsAnchored (b : MountedBundle) : Type 0 where
      pub state : ops.Kernel
      pub name : Bytes
      pub root_hash : Bytes
      pub fw : FirmwareBundleSpec
      pub vouched :
          IsVouchedFor crypto decoder root_pub now
            (ops.disk state).files
            (fwroot ++ codes "/" ++ name)
            active_slot
            name
            fw
      pub verity : root_hash ≡ fw.verity_hash
      pub valid : valid_root_hash root_hash ≡ true
      pub mapped :
          IsMapped ops state name
            ((fwroot ++ codes "/" ++ name) ++ codes "/firmware-active.img")
            ((fwroot ++ codes "/" ++ name) ++ codes "/firmware-active.hash")
            root_hash
            b

    retarget_lem :
        (b : MountedBundle) (t : Bytes) (v : ℕ)
        → IsAnchored b
        → IsAnchored (record b { target = t; version = v })
    retarget_lem b t v a = record {
      state = a.state;
      name = a.name;
      root_hash = a.root_hash;
      fw = a.fw;
      vouched = a.vouched;
      verity = a.verity;
      valid = a.valid;
      mapped = retargeted ops a.state a.name _ _ a.root_hash t v a.mapped;
    }

    -- What the anchor of a bundle says where its root hash is taken.
    abbrev Vouches : ops.Kernel → Bytes → Bytes → Type 0
    Vouches k name h =
        (fw : FirmwareBundleSpec) × IsVouchedFor crypto decoder root_pub now (ops.disk k).files
          (fwroot ++ codes "/" ++ name) active_slot name fw
        × (h ≡ fw.verity_hash)
        × (valid_root_hash h ≡ true)

    anchor_root_lem :
        (k : ops.Kernel) (name h : Bytes) (o : Outcome FirmwareBundleSpec)
        → ((fw : FirmwareBundleSpec)
            → o ≡ done fw
            → IsVouchedFor crypto decoder root_pub now
                (ops.disk k).files
                (fwroot ++ codes "/" ++ name)
                active_slot
                name
                fw)
        → anchor_root ops crypto decoder now root_pub o ≡ some h
        → Vouches k name h
    unfolding anchor_root
    anchor_root_lem k name h (done fw) v e = elim (Bool-cases (valid_root_hash fw.verity_hash)) [
      | inl g ↦
          let e' = rw g at e in
          let q : fw.verity_hash ≡ h = cc in (fw, v fw refl, sym q, rw (← q) g)
      | inr g ↦ absurd (let e' = rw g at e in cc)
    ]
    anchor_root_lem k name h (failed x) v e = cc
    anchor_root_lem k name h lost v e = cc

    vouches_lem :
        (k : ops.Kernel) (name h : Bytes)
        → anchored_hash ops crypto decoder now root_pub k (fwroot ++ codes "/" ++ name) name
          ≡ some h
        → Vouches k name h
    unfolding anchored_hash
    vouches_lem k name h e =
        anchor_root_lem k name h _
          (λ fw d.
            verified_firmware_bundle-IsVouchedFor crypto decoder (fwroot ++ codes "/" ++ name)
              active_slot root_pub now name (ops.disk k) fw d)
          e

    each_lem :
        (k : ops.Kernel) (name h : Bytes)
        → anchored_hash ops crypto decoder now root_pub k (fwroot ++ codes "/" ++ name) name
          ≡ some h
        → (o : Option MountedBundle)
        → Each
            (IsMapped ops k name
              ((fwroot ++ codes "/" ++ name) ++ codes "/firmware-active.img")
              ((fwroot ++ codes "/" ++ name) ++ codes "/firmware-active.hash")
              h)
            o
        → Each IsAnchored o
    each_lem k name h e none d = tt
    each_lem k name h e (some b) d =
        let v = vouches_lem k name h e in
        record {
          state = k;
          name = name;
          root_hash = h;
          fw = v.0;
          vouched = v.1;
          verity = v.2;
          valid = v.3;
          mapped = d;
        }

    anchor_lem :
        (k : ops.Kernel) (name : Bytes) (m : Mounted) (o : Option Bytes)
        → anchored_hash ops crypto decoder now root_pub k (fwroot ++ codes "/" ++ name) name ≡ o
        → Collected IsAnchored m
        → Collected IsAnchored
            (with_anchor ops crypto decoder now root_pub (fwroot ++ codes "/" ++ name) name m o k).0
    unfolding with_anchor
    anchor_lem k name m none e c = c
    anchor_lem k name m (some h) e c =
        place_bundle_lem IsAnchored retarget_lem m _ _
          (each_lem k name h e _ (mount_bundle_lem ops k name _ _ h)) c

    add_bundle_lem :
        (name : Bytes) (m : Mounted) (k : ops.Kernel)
        → Collected IsAnchored m
        → Collected IsAnchored (add_bundle ops crypto decoder now root_pub fwroot name m k).0
    unfolding add_bundle
    add_bundle_lem name m k c =
        elim (Bool-cases
          (ops.exists k (fwroot ++ codes "/" ++ name ++ codes "/firmware-active.img"))) [
            | inl e ↦ rw e (anchor_lem k name m _ refl c)
            | inr e ↦ rw e c
          ]

    add_each_bundle_lem :
        (names : List Bytes) (m : Mounted) (k : ops.Kernel)
        → Collected IsAnchored m
        → Collected IsAnchored (add_each_bundle ops crypto decoder now root_pub fwroot names m k).0
    unfolding add_each_bundle
    add_each_bundle_lem [] m k c = c
    add_each_bundle_lem (n ∷ ns) m k c = add_each_bundle_lem ns _ _ (add_bundle_lem n m k c)

    -- Each bundle that MountFirmware collects, for the firmware union or as an overlay, was mounted in some
    -- state of its loop from the two files in its directory: both were attached, mapped under a valid
    -- root hash, and the mapping reads as an image; the hash is that of the bundle of that name in the
    -- manifest of the active anchor in the directory, which a key signed for which the anchor's certificate
    -- vouches, that the root key signed and that has not run out.
    pub collect_bundles-IsAnchored :
        (k : ops.Kernel)
        → Collected IsAnchored (collect_bundles ops crypto decoder now root_pub fwroot k).0
    unfolding collect_bundles
    collect_bundles-IsAnchored k =
        add_each_bundle_lem (ops.dir_names k fwroot) (record { firmware = []; overlays = [] }) k
          (tt {0}, tt {0})
