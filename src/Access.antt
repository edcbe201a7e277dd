-- ===== src/Access.antt =====
-- The access rules of the web application (web/src/services/abacService.js, permissionService.js).
pub mod Rules
pub mod RuleLaws
