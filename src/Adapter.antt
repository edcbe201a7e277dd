-- ===== src/Adapter.antt =====
-- The retry policy of the adapters (services/adapter-runtime/src/retry).
pub mod Retry
pub mod DelayLaws
