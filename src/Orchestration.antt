-- ===== src/Orchestration.antt =====
-- services/orchestration-service/src/services/orchestration.service.js: the requests that move cases and
-- tasks, over the collections of cases, tasks and timers. One request reads one time `now`.
pub mod Apply
pub mod World
pub mod Requests
pub mod ApplyLaws
pub mod RequestLaws
pub mod EffectLaws
