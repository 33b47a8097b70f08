-- ===== src/Api/Conditions.antt =====
-- src/api/conditions.rs: Kubernetes conditions, their types and reasons, finalizers, annotations.
use pulumi_rs_kube_operator.Base.{Text, text, Option, ℤ}

pub record Condition : Type 0 where
  pub type_ : Text
  pub status : Text
  pub reason : Option Text
  pub message : Option Text
  pub last_transition_time : Option Text
  pub observed_generation : ℤ

abbrev pub ready : Text
ready = text "Ready"

abbrev pub reconciling : Text
reconciling = text "Reconciling"

abbrev pub ready_completed : Text
ready_completed = text "ProcessingCompleted"

abbrev pub not_ready_in_progress : Text
not_ready_in_progress = text "NotReadyInProgress"

abbrev pub reconciling_processing : Text
reconciling_processing = text "StackProcessing"

abbrev pub reconciling_retry : Text
reconciling_retry = text "RetryingAfterFailure"

abbrev pub update_complete : Text
update_complete = text "Complete"

abbrev pub update_failed : Text
update_failed = text "Failed"

abbrev pub update_progressing : Text
update_progressing = text "Progressing"

abbrev pub stack_finalizer : Text
stack_finalizer = text "finalizer.stack.pulumi.com"

abbrev pub program_finalizer : Text
program_finalizer = text "finalizer.program.pulumi.com"

abbrev pub reconcile_request_ann : Text
reconcile_request_ann = text "pulumi.com/reconciliation-request"

abbrev pub pending_deletion : Text
pending_deletion = text "PendingDeletion"

abbrev pub pending_deletion_project : Text
pending_deletion_project = text "ProjectNotFound"

abbrev pub pending_deletion_reinstated : Text
pending_deletion_reinstated = text "ProjectReinstated"

abbrev pub pending_deletion_ttl_expired : Text
pending_deletion_ttl_expired = text "GracePeriodExpired"
