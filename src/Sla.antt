-- ===== src/Sla.antt =====
-- services/orchestration-service/src/services/sla-orchestration.service.js over the timers of
-- services/case-service/src/models/SlaTimer.js. One request reads one time `now`, and a day has 24
-- hours: the server runs in a time zone without daylight saving.
pub mod Timer
pub mod Clocks
pub mod Graph
pub mod Service
pub mod Sweeps
pub mod Laws
