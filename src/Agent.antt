-- ===== src/Agent.antt =====
-- src/agent: the workspace agent.
pub mod Redact
pub mod Command
pub mod Process
pub mod Server
pub mod Config
pub mod Init
pub mod Auth
pub mod Backend
pub mod WhoAmI
