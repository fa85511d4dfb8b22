-- ===== src/Jsonrpc.antt =====
-- `JsonRpcSubprocessClient` of src/vibe/codex/jsonrpc.py, with src/vibe/codex/protocol.py.
pub mod Framing
pub mod Client
mod Examples
