-- ===== src/Compiler.antt =====
-- The context compiler: src/vibe/compiler/{intent,context}.py and src/vibe/models/capsule.py.
mod Examples
pub mod Intent
pub mod Context
