-- ===== src/Trace.antt =====
-- Route tracing.
pub mod Runtime
