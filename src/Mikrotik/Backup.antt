-- ===== src/Mikrotik/Backup.antt =====
-- mikrotik/backup.rs.
pub mod Diff
pub mod World
pub mod Flow
pub mod Library
