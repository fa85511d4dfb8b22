-- ===== src/Conversation.antt =====
-- The interview of a project's owner: src/vibe/conversation/ and src/vibe/recommendation/questions.py.
pub mod Prompts
pub mod Interview
mod Examples
