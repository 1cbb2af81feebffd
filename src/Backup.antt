-- ===== src/Backup.antt =====
-- The files of a backup.
pub mod Filename
