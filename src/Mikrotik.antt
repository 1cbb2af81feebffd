-- ===== src/Mikrotik.antt =====
-- MikroTik monitoring (src-tauri/src/mikrotik): the session manager.
pub mod Manager
pub mod Logs
pub mod Session
pub mod Backup
pub mod Error
pub mod Version
