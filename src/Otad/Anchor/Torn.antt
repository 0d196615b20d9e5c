-- ===== src/Otad/Anchor/Torn.antt =====
-- An activation that is cut off between two files of the anchor.
use atom_loops.Prelude.{◌≡◌, some, [], ◌∷◌, arith}
use atom_loops.Prelude.Text.{Bytes, codes, =b_refl}
use atom_loops.System.Files.{File}
use atom_loops.System.Io.{World, works, power_loss, found, stat, call, attempt, rename, ◌>>=◌}
use atom_loops.Otad.Anchor.{anchor_path, fw_manifest, json_ext, sig_ext, activate_firmware_anchor}

-- Where the power is lost after the first of the four files of an anchor was put in place, its active
-- manifest is the new one and the signature beside it the old one.
pub activate_firmware_anchor-torn :
    (dir : Bytes) (new old old_sig : File) (w : World)
    → w.files (anchor_path dir fw_manifest (codes "next") json_ext) ≡ some new
    → w.files (anchor_path dir fw_manifest (codes "active") json_ext) ≡ some old
    → w.files (anchor_path dir fw_manifest (codes "active") sig_ext) ≡ some old_sig
    → w.faults ≡ works ∷ works ∷ works ∷ works ∷ power_loss ∷ []
    → let f = (activate_firmware_anchor dir w).1.files in
      (f (anchor_path dir fw_manifest (codes "active") json_ext) ≡ some new)
      × (f (anchor_path dir fw_manifest (codes "active") sig_ext) ≡ some old_sig)
unfolding activate_firmware_anchor found stat call attempt ◌>>=◌ rename
activate_firmware_anchor-torn dir new old old_sig w n o s l = ground (arith, =b_refl dir)
