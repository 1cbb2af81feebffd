-- ===== src/Mtu.antt =====
-- Path MTU discovery (src-tauri/src/mtu): the search controller, and the loop that runs it.
pub mod Types
pub mod Search
pub mod Rows
pub mod Runtime
pub mod Manager
