-- ===== src/Tests.antt =====
-- Runs of the model at concrete inputs.
mod Log
mod Disk
mod Boot
mod Update
mod Daemon
mod Network
mod Images
mod Signing
mod Staging
mod Agent
mod Early
mod Programs
