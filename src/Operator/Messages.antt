-- ===== src/Operator/Messages.antt =====
-- src/operator/actors/messages.rs: the actors' messages and their priorities.
use pulumi_rs_kube_operator.Base.{ℕ, Text}

pub data Priority : Type 0 where
  deletion lock_recovery failure_retry normal : Priority

-- The discriminant, by which priorities are compared: 0 is the most urgent.
unfoldable pub priority_value : Priority → ℕ
priority_value deletion = 0
priority_value lock_recovery = 1
priority_value failure_retry = 2
priority_value normal = 3

pub data ReconcileTrigger : Type 0 where
  stack_changed workspace_changed update_completed prerequisite_ready : ReconcileTrigger
  source_changed timer manual_request retry lock_retry : ReconcileTrigger

pub data StackMessage : Type 0 where
  reconcile : (trigger : ReconcileTrigger) → StackMessage
  shutdown : StackMessage

pub record PrioritizedMessage : Type 0 where
  pub priority : Priority
  pub inner : StackMessage

pub record NameKey : Type 0 where
  pub ns : Text
  pub name : Text
