-- ===== src/Runner.antt =====
-- `TaskRunner` of src/vibe/workflows/task_runner.py.
mod Examples
pub mod State
pub mod World
pub mod Run
