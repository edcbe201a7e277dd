-- ===== src/Approval.antt =====
-- web/src/services/approval-track.service.js: which departments a common application form needs, and the
-- tasks that a new case gets.
pub mod Tracks
pub mod TrackLaws
