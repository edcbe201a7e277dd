-- ===== src/Events.antt =====
-- The consumers of events: packages/shared/src/kafka, and the replay of the orchestration service.
pub mod Ledger
pub mod Consumer
pub mod OnceLaws
