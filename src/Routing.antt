-- ===== src/Routing.antt =====
-- Hard routing: src/vibe/routing/{allowlist,gateway,phase_exposure}.py.
mod Examples
pub mod Allowlist
pub mod Gateway
pub mod Exposure
