-- ===== src/Tests.antt =====
-- The code on concrete inputs: runs of it, and each property with hypotheses where they hold.
pub mod World
pub mod Engine
pub mod Whole
pub mod Decide
pub mod Approved
pub mod Checks
pub mod Service
pub mod Table
pub mod Files
pub mod Disk
pub mod OnDisk
pub mod Codex
pub mod Redaction
pub mod Cli
pub mod Session
pub mod Process
