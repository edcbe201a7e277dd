-- ===== src/Workflow.antt =====
-- services/orchestration-service: the state machines of cases and tasks, the guards on a transition,
-- and the status that a case takes from its tasks.
pub mod Transition
pub mod CaseMachine
pub mod TaskMachine
pub mod Documents
pub mod Errors
pub mod Dependencies
pub mod Guards
pub mod Aggregate
pub mod CaseGraph
pub mod TaskGraph
pub mod GuardLaws
pub mod TaskLaws
pub mod AggregateLaws
