-- ===== src/System.antt =====
-- What the program uses of the operating system: files, and calls that can fail or lose power.
pub mod Files
pub mod Io
pub mod Triple
pub mod Keeps
pub mod Durable
pub mod Returns
pub mod Finds
pub mod Runs
pub mod Steady
