-- ===== src/Ping.antt =====
-- Ping sessions: the probe loop, the statistics, the consumer that stores the probes, the manager.
pub mod Stats
pub mod Loop
pub mod Consumer
pub mod Manager
