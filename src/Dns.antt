-- ===== src/Dns.antt =====
-- The DNS benchmark.
pub mod Scheduler
pub mod Error
