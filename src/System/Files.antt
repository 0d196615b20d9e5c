-- ===== src/System/Files.antt =====
-- Files by path. A rename or a hard link gives a path the same file, a write gives it new content.
use atom_loops.Prelude.{
  ℕ, ◌≡◌, refl, ◌↔◌, Bool, true, false, ◌&&◌, Option, none, some, ◌++◌, arith, ◌==◌, ==_iff,
  if◌then◌else◌,
}
use atom_loops.Prelude.Text.{Bytes, ◌=b◌, =b_iff}

-- filepath.Join(dir, name) for a name of the program, the unique names of os.CreateTemp, and the files of a
-- directory of os.MkdirTemp.
pub data FilePath : Type 0 where
  join : Bytes → Bytes → FilePath
  temp : ℕ → FilePath
  work : ℕ → Bytes → FilePath

pub record File : Type 0 where
  pub inode : ℕ
  pub content : Bytes

abbrev pub Files : Type 0
Files = FilePath → Option File

infix 50 ◌=p◌
abbrev pub ◌=p◌ : FilePath → FilePath → Bool
join d n =p join e m = d =b e && n =b m
join d n =p temp j = false
join d n =p work j m = false
temp i =p join e m = false
temp i =p temp j = i == j
temp i =p work j m = false
work i n =p join e m = false
work i n =p temp j = false
work i n =p work j m = i == j && n =b m

pub =p_iff : (p q : FilePath) → (p =p q ≡ true) ↔ (p ≡ q)
=p_iff (join d n) (join e m) = ground (arith, =b_iff d e, =b_iff n m)
=p_iff (join d n) (temp j) = ground arith
=p_iff (join d n) (work j m) = ground arith
=p_iff (temp i) (join e m) = ground arith
=p_iff (temp i) (temp j) = ground (arith, ==_iff i j)
=p_iff (temp i) (work j m) = ground arith
=p_iff (work i n) (join e m) = ground arith
=p_iff (work i n) (temp j) = ground arith
=p_iff (work i n) (work j m) = ground (arith, ==_iff i j, =b_iff n m)

pub =p_refl : (p : FilePath) → p =p p ≡ true
=p_refl p = (=p_iff p p).1 refl

-- The path with a suffix, such as path + ".bak".
abbrev pub suffixed : FilePath → Bytes → FilePath
suffixed (join d n) s = join d (n ++ s)
suffixed (temp i) s = temp i
suffixed (work i n) s = work i (n ++ s)

-- The path is one that the program has made up for itself: no other file has it.
abbrev pub is_temp : FilePath → Bool
is_temp (join d n) = false
is_temp (temp i) = true
is_temp (work i n) = true

abbrev pub in_work : ℕ → FilePath → Bool
in_work i (join d n) = false
in_work i (temp j) = false
in_work i (work j n) = i == j

abbrev pub update : Files → FilePath → Option File → Files
update f p x q = if p =p q then x else f q

abbrev pub content_of : Option File → Option Bytes
content_of none = none
content_of (some x) = some x.content

-- What a reader of the path finds.
abbrev pub content_at : Files → FilePath → Option Bytes
content_at f p = content_of (f p)

-- Files of two names are two files, whatever their directories are.
pub join-ne : (d n e m : Bytes) → n =b m ≡ false → join d n =p join e m ≡ false
join-ne d n e m h = ground (arith, h)
