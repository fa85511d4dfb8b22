-- ===== src/Practices.antt =====
-- The practice packs: src/vibe/practices/{models,matcher,evaluator}.py and
-- src/vibe/resolver/requirements.py.
pub mod Packs
pub mod Matcher
pub mod Evaluator
pub mod Merge
pub mod Calibration
mod Examples
