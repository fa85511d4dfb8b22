-- ===== src/Recommendation.antt =====
-- The review of what is recommended to a project: src/vibe/recommendation/.
pub mod Readiness
mod Examples
