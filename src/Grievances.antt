-- ===== src/Grievances.antt =====
-- The grievances of the case service (services/case-service/src).
pub mod Records
pub mod Service
pub mod Reading
pub mod HistoryLaws
pub mod AccessLaws
