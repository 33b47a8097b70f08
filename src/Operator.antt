-- ===== src/Operator.antt =====
-- src/operator: messages, lock recovery, finalizers, the connection pool, and the effects through
-- which the reconciler acts on the cluster.
pub mod Messages
pub mod LockState
pub mod Finalizers
pub mod Events
pub mod Status
pub mod Effects
pub mod Fallible
pub mod Connection
pub mod Notifications
pub mod Health
pub mod Metrics
pub mod Start
