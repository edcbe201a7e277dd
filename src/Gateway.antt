-- ===== src/Gateway.antt =====
-- apps/gateway/src: who may call a route, and the replay of requests that carry an idempotency key.
pub mod RolePermissions
pub mod Auth
pub mod Idempotency
pub mod RoleLaws
pub mod AuthLaws
pub mod ReplayLaws
