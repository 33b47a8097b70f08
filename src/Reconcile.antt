-- ===== src/Reconcile.antt =====
-- src/operator/reconcile: the reconciliation pipeline and its steps.
pub mod Sync
pub mod Prerequisites
pub mod CheckUpdate
pub mod Source
pub mod Project
pub mod Workspace
pub mod CreateUpdate
pub mod Destroy
pub mod Action
pub mod Pipeline
