-- ===== src/Actors.antt =====
-- src/operator/actors: one actor for each stack, its mailbox, and the dispatcher in front of them.
pub mod State
pub mod Requeue
pub mod Requests
pub mod Updates
pub mod Destroys
pub mod Projects
pub mod HandleAction
pub mod HandleError
pub mod HandleReconcile
pub mod Mailbox
pub mod Run
pub mod Dispatcher
