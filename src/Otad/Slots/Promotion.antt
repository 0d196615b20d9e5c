-- ===== src/Otad/Slots/Promotion.antt =====
-- Which files the promotion of the slots changes.
use atom_loops.Prelude.{
  ◌≡◌, refl, ◌||◌, Bool, true, false, Option, List, [], ◌∷◌, if◌then◌else◌, ℕ, zero, suc,
}
use atom_loops.Prelude.Text.{Bytes}
use atom_loops.System.Files.{is_temp, FilePath, File, Files, ◌=p◌}
use atom_loops.System.Io.{Io}
use atom_loops.System.Triple.{
  Triple, Triple-bind, Triple-attempt, Triple-pure, Triple-throw, Triple-label, Keeps,
}
use atom_loops.Otad.Slots.{
  StageDirs, SlotGroup, slot_groups, active_path, prev_path, next_path, non_empty,
  same_file_identity, same_file_content, copy_file_sync, link_file_sync, preflight_slots,
  check_group, check_staged, check_suffixes, check_suffix, check_active, count_staged,
  promote_slots, promote_groups, promote_suffixes, promote_slot, shift_slot,
}
use atom_loops.Otad.Slots.Frame.{read-Keeps, stat-Keeps, copy-Keeps, link_file-Keeps}

-- The path is an active or a previous file of the group, or of one of the groups.
abbrev is_target : SlotGroup → List Bytes → FilePath → Bool
is_target g [] q = false
is_target g (s ∷ ss) q = active_path g s =p q || prev_path g s =p q || is_target g ss q

abbrev pub is_slot_target : List SlotGroup → FilePath → Bool
is_slot_target [] q = false
is_slot_target (g ∷ gs) q = is_target g g.suffixes q || is_slot_target gs q

or_left : (b c : Bool) → (b || c) ≡ false → b ≡ false
or_left true c h = cc
or_left false c h = refl

or_right : (b c : Bool) → (b || c) ≡ false → c ≡ false
or_right true c h = cc
or_right false c h = h

module _ (q : FilePath) (x : Option File) (plain : is_temp q ≡ false) where
  abbrev Same : Files → Type 0
  Same f = f q ≡ x

  non_empty-Keeps : (p : FilePath) → Keeps Same (non_empty p)
  unfolding non_empty
  non_empty-Keeps p =
      Triple-attempt _ _ (stat-Keeps q x plain p) (λ o. Triple-pure _ (λ f h. h))
        (λ e. Triple-pure _ (λ f h. h))

  identity-Keeps : (a b : FilePath) → Keeps Same (same_file_identity a b)
  unfolding same_file_identity
  identity-Keeps a b =
      Triple-attempt _ _ (stat-Keeps q x plain a)
        (λ o.
          Triple-attempt _ _ (stat-Keeps q x plain b) (λ p. Triple-pure _ (λ f h. h))
            (λ e. Triple-pure _ (λ f h. h)))
        (λ e. Triple-pure _ (λ f h. h))

  content-Keeps :
      (sha256 : Bytes → Bytes) (a b : FilePath) → Keeps Same (same_file_content sha256 a b)
  unfolding same_file_content
  content-Keeps sha256 a b =
      Triple-attempt _ _ (read-Keeps q x plain a)
        (λ o.
          Triple-attempt _ _ (read-Keeps q x plain b) (λ p. Triple-pure _ (λ f h. h))
            (λ e. Triple-pure _ (λ f h. h)))
        (λ e. Triple-pure _ (λ f h. h))

  count_staged-Keeps : (g : SlotGroup) (n : ℕ) (ss : List Bytes) → Keeps Same (count_staged g n ss)
  unfolding count_staged
  count_staged-Keeps g n [] = Triple-pure _ (λ f h. h)
  count_staged-Keeps g n (s ∷ ss) =
      Triple-bind _ (non_empty-Keeps (next_path g s))
        λ b. count_staged-Keeps g (if b then suc n else n) ss

  check_active-Keeps : (b : Bool) → Keeps Same (check_active b)
  unfolding check_active
  check_active-Keeps true = Triple-pure _ (λ f h. h)
  check_active-Keeps false = Triple-throw _ (λ f h. h)

  check_suffix-Keeps : (g : SlotGroup) (s : Bytes) (b : Bool) → Keeps Same (check_suffix g s b)
  unfolding check_suffix
  check_suffix-Keeps g s true = Triple-bind _ (non_empty-Keeps (active_path g s)) check_active-Keeps
  check_suffix-Keeps g s false = Triple-throw _ (λ f h. h)

  check_suffixes-Keeps : (g : SlotGroup) (ss : List Bytes) → Keeps Same (check_suffixes g ss)
  unfolding check_suffixes
  check_suffixes-Keeps g [] = Triple-pure _ (λ f h. h)
  check_suffixes-Keeps g (s ∷ ss) =
      Triple-bind _ (non_empty-Keeps (next_path g s))
        λ b. Triple-bind _ (check_suffix-Keeps g s b) λ _. check_suffixes-Keeps g ss

  check_staged-Keeps : (g : SlotGroup) (n : ℕ) → Keeps Same (check_staged g n)
  unfolding check_staged
  check_staged-Keeps g zero = Triple-throw _ (λ f h. h)
  check_staged-Keeps g (suc n) = check_suffixes-Keeps g g.suffixes

  either-Keeps :
      (b : Bool) (m n : Io (Unit {0}))
      → Keeps Same m
      → Keeps Same n
      → Keeps Same (if b then m else n)
  either-Keeps true m n h k = h
  either-Keeps false m n h k = k

  preflight-Keeps : (gs : List SlotGroup) → Keeps Same (preflight_slots gs)
  unfolding preflight_slots check_group
  preflight-Keeps [] = Triple-pure _ (λ f h. h)
  preflight-Keeps (g ∷ gs) =
      Triple-bind _
        (either-Keeps _ _ _ (Triple-pure _ (λ f h. h))
          (Triple-bind _ (count_staged-Keeps g 0 g.suffixes) (check_staged-Keeps g)))
        λ _. preflight-Keeps gs

  shift-Keeps :
      (put : FilePath → FilePath → Io (Unit {0}))
      → ((src dst : FilePath) → is_temp dst ≡ false → dst =p q ≡ false → Keeps Same (put src dst))
      → (g : SlotGroup) (s : Bytes) → active_path g s =p q ≡ false
      → prev_path g s =p q ≡ false
      → (b : Bool) → Keeps Same (shift_slot put g s b)
  unfolding shift_slot
  shift-Keeps put k g s m n true = Triple-pure _ (λ f h. h)
  shift-Keeps put k g s m n false =
      Triple-bind _ (Triple-label _ (k (active_path g s) (prev_path g s) refl n))
        λ _. Triple-label _ (k (next_path g s) (active_path g s) refl m)

  module _ (sha256 : Bytes → Bytes) where
    promote_slot-Keeps :
        (g : SlotGroup) (s : Bytes)
        → active_path g s =p q ≡ false
        → prev_path g s =p q ≡ false
        → (b : Bool) → Keeps Same (promote_slot sha256 g s b)
    unfolding promote_slot
    promote_slot-Keeps g s m n false = Triple-pure _ (λ f h. h)
    promote_slot-Keeps g s m n true =
        either-Keeps _ _ _
          (Triple-bind _ (content-Keeps sha256 (active_path g s) (next_path g s))
            (shift-Keeps copy_file_sync (copy-Keeps q x plain) g s m n))
          (Triple-bind _ (identity-Keeps (active_path g s) (next_path g s)) (
            shift-Keeps link_file_sync (λ src dst e h. link_file-Keeps q x plain src dst h) g s m
              n))

    suffixes-Keeps :
        (g : SlotGroup) (ss : List Bytes)
        → is_target g ss q ≡ false
        → Keeps Same (promote_suffixes sha256 g ss)
    unfolding promote_suffixes
    suffixes-Keeps g [] h = Triple-pure _ (λ f h. h)
    suffixes-Keeps g (s ∷ ss) h = Triple-bind _ (non_empty-Keeps (next_path g s)) λ b.
        Triple-bind _
          (promote_slot-Keeps g s (or_left _ _ (or_left _ _ h)) (or_right _ _ (or_left _ _ h)) b)
          λ _. suffixes-Keeps g ss (or_right _ _ h)

    groups-Keeps :
        (gs : List SlotGroup) → is_slot_target gs q ≡ false → Keeps Same (promote_groups sha256 gs)
    unfolding promote_groups
    groups-Keeps [] h = Triple-pure _ (λ f h. h)
    groups-Keeps (g ∷ gs) h =
        Triple-bind _ (suffixes-Keeps g g.suffixes (or_left _ _ h))
          λ _. groups-Keeps gs (or_right _ _ h)

-- A promotion of the slots, stopped by an error or a loss of power at any call or come to its end, leaves
-- every file as it was but the active and the previous files of the slots and temporary files.
pub promote_slots-Keeps :
    (sha256 : Bytes → Bytes) (dirs : StageDirs) (q : FilePath) (x : Option File)
    → is_temp q ≡ false
    → is_slot_target (slot_groups dirs) q ≡ false
    → Triple (λ f. f q ≡ x) (promote_slots sha256 dirs) (λ f. f q ≡ x) (λ _ f. f q ≡ x)
unfolding promote_slots
promote_slots-Keeps sha256 dirs q x plain h =
    Triple-bind _ (preflight-Keeps q x plain (slot_groups dirs))
      λ _. groups-Keeps q x plain sha256 (slot_groups dirs) h
