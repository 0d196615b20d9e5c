-- ===== src/Boot/Firmware/Overlay.antt =====
-- Which overlay bundle a directory of the root gets.
use atom_loops.Prelude.{
  ℕ, ◌≡◌, refl, true, false, ◌&&◌, Option, none, some, [], arith, leb, ltb, ◌==◌, Bool-cases, inl,
  inr, if◌then◌else◌,
}
use atom_loops.Prelude.Text.{Bytes, codes, has_prefix, split, ◌=b◌, =b_iff}
use atom_loops.Prelude.Assoc.{lookup, insert, lookup-insert}
use atom_loops.Boot.Firmware.{
  FwOps, MountedBundle, Mounted, parse_overlay, checked_overlay, is_clean, read_overlay_lines,
  place_overlay, replace_overlay, overlay_wanted,
}

-- An .overlay file is anchor_root only for a directory below /usr that is spelled out and is not that of the
-- firmware, with a version above 0.
checked_lem :
    (r : Bytes × ℕ) (t : Bytes) (v : ℕ)
    → checked_overlay r ≡ some (t, v)
    → (v == 0 ≡ false)
      × (is_clean t ≡ true)
      × (has_prefix (codes "/usr/") t ≡ true)
      × (t =b codes "/usr/lib/firmware" ≡ false)
unfolding checked_overlay
checked_lem (t', v') t v h = ground arith

pub parse_overlay_lem :
    (text t : Bytes) (v : ℕ)
    → parse_overlay text ≡ some (t, v)
    → (v == 0 ≡ false)
      × (is_clean t ≡ true)
      × (has_prefix (codes "/usr/") t ≡ true)
      × (t =b codes "/usr/lib/firmware" ≡ false)
unfolding parse_overlay
parse_overlay_lem text t v h = go (read_overlay_lines (split 10 text) ([], 0)) h
  where
    go :
        (o : Option (Bytes × ℕ))
        → elim o as (λ _. Option (Bytes × ℕ)) [ none ↦ none | some r ↦ checked_overlay r ]
          ≡ some (t, v)
        → (v == 0 ≡ false)
          × (is_clean t ≡ true)
          × (has_prefix (codes "/usr/") t ≡ true)
          × (t =b codes "/usr/lib/firmware" ≡ false)
    go none e = cc
    go (some r) e = checked_lem r t v e

-- The bundle that is kept for a directory, and its version, 0 where there is none.
abbrev pub kept_for : Bytes → Mounted → Option MountedBundle
kept_for t m = lookup t m.overlays

abbrev pub version_of : Option MountedBundle → ℕ
version_of none = 0
version_of (some b) = b.version

-- After an insertion.
inserted_lem :
    (b : MountedBundle) (m : Mounted) (u : Bytes)
    → kept_for u (record m { overlays = insert b.target b m.overlays })
      ≡ (if b.target =b u then some b else kept_for u m)
inserted_lem b m u = lookup-insert b.target u b m.overlays

module _ (ops : FwOps) where
  replaced_lem :
      (b : MountedBundle) (m : Mounted) (o : Option MountedBundle) (k : ops.Kernel) (u : Bytes)
      → b.version == 0 ≡ false
      → lookup b.target m.overlays ≡ o
      → kept_for u (replace_overlay ops b m o k).0 ≡ (
          if b.target =b u && ltb (version_of (kept_for u m)) b.version
          then some b
          else kept_for u m)
  unfolding replace_overlay
  replaced_lem b m none k u z e = ground (arith, inserted_lem b m u, =b_iff b.target u)
  replaced_lem b m (some old) k u z e = elim (Bool-cases (leb b.version old.version)) [
    | inl h ↦ rw h (ground (arith, =b_iff b.target u))
    | inr h ↦ rw h (ground (arith, inserted_lem b m u, =b_iff b.target u))
  ]

  -- A bundle whose .overlay file names the directory t and the version v is kept for a directory u exactly
  -- where u is t, the root wants the version, and it is above the version of the bundle that is kept for u so
  -- far; otherwise the same bundle as before, if any, is kept for u.
  pub place_overlay-kept :
      (b : MountedBundle) (m : Mounted) (k : ops.Kernel) (text t : Bytes) (v : ℕ) (u : Bytes)
      → parse_overlay text ≡ some (t, v)
      → kept_for u (place_overlay ops b m (parse_overlay text) k).0 ≡ (
          if overlay_wanted ops k t v && (t =b u) && ltb (version_of (kept_for u m)) v
          then some (record b { target = t; version = v })
          else kept_for u m)
  unfolding place_overlay
  place_overlay-kept b m k text t v u e = elim (Bool-cases (overlay_wanted ops k t v)) [
    | inl h ↦
        rw (e, h)
          (replaced_lem (record b { target = t; version = v }) m (lookup t m.overlays) k u
            (parse_overlay_lem text t v e).0 refl)
    | inr h ↦ rw (e, h) refl
  ]
