-- ===== src/Remote.antt =====
-- The candidates of remote sources: src/vibe/remote/.
pub mod Models
pub mod Scoring
pub mod Discovery
pub mod Scan
mod Examples
