-- ===== src/Core/Recovery.antt =====
-- src/core/recovery.rs: the recovery action for each error.
use pulumi_rs_kube_operator.Base.{ℕ}
use pulumi_rs_kube_operator.Errors.{
  TransientError, connection_failed, status_update_conflict, workspace_not_ready, update_not_found,
  artifact_not_ready, prerequisite_not_satisfied, operation_timeout, agent_retriable, kube_api,
  kube_api_detailed, OperatorError, transient, permanent, lock, LockError, update_conflict,
  pending_operations,
}

pub data RecoveryAction : Type 0 where
  retry_with_backoff : (base_ms max_ms : ℕ) → RecoveryAction
  stall force_unlock_and_retry : RecoveryAction

unfoldable pub transient_action : TransientError → RecoveryAction
transient_action connection_failed = retry_with_backoff 5000 60000
transient_action status_update_conflict = retry_with_backoff 1000 10000
transient_action workspace_not_ready = retry_with_backoff 5000 120000
transient_action update_not_found = retry_with_backoff 2000 30000
transient_action artifact_not_ready = retry_with_backoff 5000 60000
transient_action prerequisite_not_satisfied = retry_with_backoff 10000 300000
transient_action (agent_retriable m) = retry_with_backoff 5000 60000
transient_action operation_timeout = retry_with_backoff 30000 300000
transient_action (kube_api r) = retry_with_backoff 1000 30000
transient_action (kube_api_detailed r) = retry_with_backoff 1000 30000

unfoldable pub lock_action : LockError → RecoveryAction
lock_action update_conflict = force_unlock_and_retry
lock_action pending_operations = retry_with_backoff 10000 60000

unfoldable pub recovery_action : OperatorError → RecoveryAction
unfolding transient_action lock_action
recovery_action (transient t) = transient_action t
recovery_action (permanent p) = stall
recovery_action (lock l) = lock_action l
