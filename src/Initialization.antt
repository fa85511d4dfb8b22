-- ===== src/Initialization.antt =====
-- The resumable project initialization: src/vibe/workflows/{state,checkpoints,init_graph}.py.
mod Examples
pub mod State
pub mod Store
pub mod Graph
