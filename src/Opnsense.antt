-- ===== src/Opnsense.antt =====
-- The OPNsense feature.
pub mod Activity
pub mod Terminal
pub mod Logs
pub mod Monitor
pub mod Backup
