-- ===== src/Doctor.antt =====
-- The health of a configured project: src/vibe/doctor/.
pub mod Drift
mod Examples
