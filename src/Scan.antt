-- ===== src/Scan.antt =====
-- The LAN scanner (src-tauri/src/scan).
pub mod Cidr
