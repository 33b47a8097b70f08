-- ===== src/Tests.antt =====
-- Concrete inputs for the theorems: a cluster of constant answers, and the theorems at those inputs.
mod Data
mod Pipeline
mod Decisions
mod Actors
mod Components
mod Execution
mod Services
mod Platform
mod Agents
