-- ===== src/Boot/Kernel.antt =====
-- boot/root.go: what root selection needs from the system. `Ops` is the record of functions of the source;
-- a function that only reads takes the kernel's state, one that acts returns the next state too.
use atom_loops.Prelude.{ℕ, Bool, Option, List}
use atom_loops.Prelude.Text.{Bytes}

pub record Partition : Type 0 where
  pub dev : Bytes
  pub disk : Bytes
  pub part_name : Bytes
  pub label : Bytes

abbrev pub St : Type 0 → Type 0 → Type 0
St K A = K → A × K

-- `none` is the error of a call, a nil function, or a path that is not there.
pub record Ops : Type 1 where
  pub Kernel : Type 0
  pub partitions : Kernel → List Partition
  pub mount_data : Bytes → Bytes → St Kernel Bool
  pub unmount : Bytes → St Kernel Bool
  pub glob : Kernel → Bytes → List Bytes
  pub exists_at : Kernel → Bytes → Bool
  pub attach_loop : Bytes → St Kernel (Option Bytes)
  pub detach_loop : Bytes → St Kernel Bool
  pub open_verity : Bytes → Bytes → Bytes → Bytes → St Kernel (Option Bytes)
  pub close_verity : Bytes → St Kernel Bool
  pub has_erofs : Kernel → Bytes → Bool
  pub is_verity_hash : Kernel → Bytes → Bool
  pub hash_root : Option (Kernel → Bytes → Bytes × ℕ)
  pub dev_bytes : Option (Kernel → Bytes → ℕ)
  pub mount_iso : Bytes → Bytes → St Kernel Bool
  pub disk_of : Kernel → Bytes → Bytes
  pub sleep : ℕ → St Kernel (Unit {0})

infixl 5 ◌>>=◌ ◌>>◌
abbrev pub ◌>>=◌ : {K A B : Type 0} → St K A → (A → St K B) → St K B
◌>>=◌ m f k = let (a, k') = m k in f a k'

abbrev pub ◌>>◌ : {K A B : Type 0} → St K A → St K B → St K B
m >> n = m >>= λ _. n

abbrev pub pure : {K A : Type 0} → A → St K A
pure a k = (a, k)

-- A query of the state.
abbrev pub ask : {K A : Type 0} → (K → A) → St K A
ask f k = (f k, k)
