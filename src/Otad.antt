-- ===== src/Otad.antt =====
-- Package otad (internal/otad): the daemon of the running system.
pub mod Version
pub mod Hardware
pub mod Manifest
pub mod Counter
pub mod BootState
pub mod Slots
pub mod Identity
pub mod Daemon
pub mod Fetch
pub mod Outside
pub mod Trusted
pub mod Recovery
pub mod Anchor
pub mod Loader
pub mod Promote
pub mod Stage
pub mod Health
pub mod Confirm
