-- ===== src/Migrations.antt =====
-- The schema migrations of documents: src/vibe/migrations/registry.py.
pub mod Versions
pub mod Registry
mod Examples
