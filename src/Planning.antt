-- ===== src/Planning.antt =====
-- Risk classification and phased task plans: src/vibe/models/{risk,task}.py and
mod Examples
-- src/vibe/workflows/{scenarios,phases,task_graph}.py.
pub mod Risk
pub mod Scenarios
pub mod TaskGraph
