-- ===== src/Signing/Hashed.antt =====
-- What the release side hashes, the device verifies.
use atom_loops.Prelude.{
  ◌≡◌, refl, ◌↔◌, ◌∙◌, Bool, true, false, Option, none, some, List, [], ◌∷◌, ◌==◌, length,
  if◌then◌else◌,
}
use atom_loops.Prelude.Text.{Bytes, ◌=b◌, =b_iff}
use atom_loops.Prelude.HexLaws.{AreBytes, decode_hex-encode_hex}
use atom_loops.System.Files.{FilePath, File, content_at, content_of}
use atom_loops.System.Io.{
  Fault, World, done, message, pure, throw, read_file, call, call_with, run, read_effect, ◌>>=◌,
}
use atom_loops.Otad.Trusted.{check_hash, verify_sha256}
use atom_loops.Otad.Trusted.Hashes.{hash_equal-=b}
use atom_loops.Signing.{hash_file}

-- A read where no call is disturbed.
calm_read :
    (p : FilePath) (b : Bytes) (w : World)
    → w.faults ≡ []
    → content_at w.files p ≡ some b
    → read_file p w ≡ (done b, w)
unfolding read_file call
calm_read p b w h c = calm w.faults h ∙ go (w.files p) c
  where
    calm :
        (s : List Fault)
        → s ≡ []
        → call_with s (λ f. read_effect (f p) f) w ≡ run (read_effect (w.files p) w.files) w
    calm [] e = refl
    calm (x ∷ s) e = cc

    go : (o : Option File) → content_of o ≡ some b → run (read_effect o w.files) w ≡ (done b, w)
    go none e = cc
    go (some x) e = let s : x.content ≡ b = cc in rw s refl

module _ (sha256 : Bytes → Bytes) (sized : (b : Bytes) → length (sha256 b) == 32 ≡ true)
    (bytes : (b : Bytes) → AreBytes (sha256 b)) (p q : FilePath) (b c : Bytes) (w : World)
    (calm : w.faults ≡ []) (first : content_at w.files p ≡ some b)
    (second : content_at w.files q ≡ some c) where
  judged :
      (t : Bool)
      → (((if t then pure tt else throw (message "verify: sha256 mismatch")) w).0 ≡ done tt)
        ↔ (t ≡ true)
  judged true = ((λ h. refl), λ h. refl)
  judged false = ((λ h. cc), λ h. cc)

  -- Where no call fails, a file passes VerifySHA256 against what hashFile returns for a file if and only if
  -- the two have one hash; a hash is 32 bytes.
  pub hash_file-verify_sha256 :
      (((hash_file sha256 p >>= verify_sha256 sha256 q) w).0 ≡ done tt) ↔ (sha256 c ≡ sha256 b)
  unfolding hash_file verify_sha256 check_hash ◌>>=◌
  hash_file-verify_sha256 =
      rw
        (
          calm_read p b w calm first,
          decode_hex-encode_hex (sha256 b) (bytes b),
          sized b,
          calm_read q c w calm second,
          hash_equal-=b (sha256 c) (sha256 b) (bytes c) (bytes b),
        )
        (
          (λ h. (=b_iff (sha256 c) (sha256 b)).0 ((judged (sha256 c =b sha256 b)).0 h)),
          λ h. (judged (sha256 c =b sha256 b)).1 ((=b_iff (sha256 c) (sha256 b)).1 h),
        )
