-- ===== src/Api.antt =====
-- The custom resources (src/api): the fields of each type that the operator's logic reads or writes.
-- A map is an association list.
pub mod Meta
pub mod Json
pub mod Conditions
pub mod Stack
pub mod Update
pub mod Program
pub mod Workspace
pub mod Owner
