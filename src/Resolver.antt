-- ===== src/Resolver.antt =====
-- The local resolver: src/vibe/resolver/{policy,scoring,local}.py, src/vibe/policy/org.py and
-- src/vibe/inventory/adapters/base.py.
pub mod Policy
pub mod Scoring
pub mod Local
pub mod Context
pub mod Plan
mod Examples
