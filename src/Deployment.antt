-- ===== src/Deployment.antt =====
-- Package deployment (internal/deployment): the write-ahead log of the device.
pub mod State
pub mod Transition
pub mod Slots
pub mod History
pub mod Wal
