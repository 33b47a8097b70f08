-- ===== src/Controllers.antt =====
-- src/operator/controllers: the watchers, and what they do for Updates and Programs.
pub mod Protocol
pub mod Secret
pub mod StreamUpdate
pub mod ExecuteUpdate
pub mod UpdateWatcher
pub mod FileServer
pub mod Artifact
pub mod Programs
pub mod Watchers
pub mod Workspaces
