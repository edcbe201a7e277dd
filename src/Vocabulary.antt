-- ===== src/Vocabulary.antt =====
-- packages/shared/src/constants: the statuses, roles, permissions and event names of the platform.
pub mod CaseStatuses
pub mod TaskStatuses
pub mod TimerStatuses
pub mod Roles
pub mod Permissions
pub mod EventNames
pub mod Departments
