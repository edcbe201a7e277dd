-- ===== src/Outbox.antt =====
-- services/case-service/src/outbox: the publication of the domain events that the other services have
-- appended to the outbox.
pub mod Rows
pub mod Publisher
pub mod RetryLaws
pub mod PublishLaws
pub mod LateLaws
