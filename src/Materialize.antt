-- ===== src/Materialize.antt =====
-- What writes a project's files: src/vibe/materialize/{ownership,changeset,writer}.py.
pub mod Changeset
pub mod Disk
pub mod Writer
mod Examples
