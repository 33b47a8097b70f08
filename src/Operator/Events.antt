-- ===== src/Operator/Events.antt =====
-- src/operator/events.rs and metrics.rs: the lifecycle events that the reconciler records and the
-- counters that it moves.
use pulumi_rs_kube_operator.Base.{Text, Option, ℤ}
use pulumi_rs_kube_operator.Errors.{OperatorError}

-- The message of `stalled` is the printed error, so the error itself stands for it.
pub data StackEvent : Type 0 where
  update_created_event lock_conflict_event destroy_started_event : (update_name : Text) → StackEvent
  update_succeeded_event : (update_name : Text) → (permalink : Option Text) → StackEvent
  update_failed_event : (update_name message : Text) → StackEvent
  destroy_failed_event : (update_name : Text) → (attempt : ℤ) → StackEvent
  destroy_succeeded_event workspace_deleted_event force_unlocked_event : StackEvent
  project_ttl_expired_event : StackEvent
  stalled_event : (reason : Text) → (error : OperatorError) → StackEvent
  project_not_found_event : (project_id : Text) → StackEvent

pub data Metric : Type 0 where
  reconciles reconcile_errors lock_conflicts force_unlocks : Metric
  active_actors_up active_actors_down mailbox_drops : Metric
