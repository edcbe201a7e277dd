-- ===== src/Tests.antt =====
-- Runs of the model at concrete inputs.
mod Samples
pub mod GuardTests
pub mod WorkflowTests
pub mod SlaTests
pub mod RequestTests
pub mod OutboxTests
pub mod ApprovalTests
pub mod GatewayTests
pub mod AuditTests
pub mod AccountTests
pub mod GrievanceTests
pub mod QueueTests
pub mod EventTests
pub mod AccessTests
