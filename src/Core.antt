-- ===== src/Core.antt =====
-- src/core: durations and timestamps, lock errors and their retry loop, error recovery.
pub mod Time
pub mod Lock
pub mod Recovery
