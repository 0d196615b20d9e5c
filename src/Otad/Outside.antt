-- ===== src/Otad/Outside.antt =====
-- What the daemon uses of the world outside its files, as one record of parameters.
use atom_loops.Prelude.{ℕ, Option, List}
use atom_loops.Prelude.Text.{Bytes}
use atom_loops.Deployment.Wal.{Json}
use atom_loops.Otad.Fetch.{Network}
use atom_loops.Otad.Hardware.{PciDevice}
use atom_loops.Otad.Manifest.{Decoder}
use atom_loops.Trust.{Crypto}

-- `sha256` is the hash of crypto/sha256, `now` and `timestamp` what time.Now tells, `cmdline` the kernel
-- command line (`none` where it cannot be read), `pci` the devices of /sys, `kernel` the running kernel.
pub record Outside : Type 0 where
  pub net : Network
  pub crypto : Crypto
  pub decoder : Decoder
  pub json : Json
  pub sha256 : Bytes → Bytes
  pub now : ℕ
  pub timestamp : Bytes
  pub cmdline : Option Bytes
  pub pci : List PciDevice
  pub kernel : Bytes
