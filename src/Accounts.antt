-- ===== src/Accounts.antt =====
-- The accounts of the web application (web/src/services): users, sessions, login, and the tokens and
-- codes that are sent to a user.
pub mod Users
pub mod Sessions
pub mod Login
pub mod Codes
pub mod LockLaws
pub mod FailureLaws
pub mod SessionLaws
pub mod CodeLaws
