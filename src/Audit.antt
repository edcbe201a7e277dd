-- ===== src/Audit.antt =====
-- The audit service (services/audit-service/src): the log of audit events and the chain of their
-- hashes.
pub mod Events
pub mod Log
pub mod Ordering
pub mod ChainLaws
pub mod TamperLaws
pub mod WholeLogLaws
