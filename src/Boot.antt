-- ===== src/Boot.antt =====
-- Package boot (boot): the early boot, which finds and maps the root.
pub mod Verity
pub mod Kernel
pub mod Media
pub mod Ranking
pub mod Root
pub mod Firmware
