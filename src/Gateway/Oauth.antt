-- ===== src/Gateway/Oauth.antt =====
-- packages/gateway/src/host/oauth: the Codex device login.
pub mod Types
pub mod Lines
pub mod Times
pub mod Parser
pub mod Callback
pub mod Operation
pub mod Manager
