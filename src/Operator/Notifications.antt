-- ===== src/Operator/Notifications.antt =====
-- src/operator/events.rs: what is published of an event, and the webhooks that are told of it. `source`
-- is what an error of the client library prints.
pub mod Delivery
use pulumi_rs_kube_operator.Base.{
  ℕ, zero, suc, Bool, true, false, ◌&&◌, Option, none, some, List, [], ◌∷◌, ◌++◌, any, retain, Text,
  text, decimal_int, ◌==◌, leb, ltb, Duration, from_secs, or_else, if◌then◌else◌,
}
use pulumi_rs_kube_operator.Errors.{display}
use pulumi_rs_kube_operator.Api.Meta.{name_any}
use pulumi_rs_kube_operator.Api.Conditions.{pending_deletion_project, pending_deletion_ttl_expired}
use pulumi_rs_kube_operator.Api.Stack.{
  Stack, NotificationEventFilter, on_update_succeeded, on_update_failed, on_destroy_succeeded,
  on_destroy_failed, on_lock_conflict, on_stalled, WebhookAuthSecret, NotificationWebhook,
}
use pulumi_rs_kube_operator.Operator.Events.{
  StackEvent, update_created_event, lock_conflict_event, destroy_started_event,
  update_succeeded_event, update_failed_event, destroy_failed_event, destroy_succeeded_event,
  workspace_deleted_event, force_unlocked_event, project_ttl_expired_event, stalled_event,
  project_not_found_event,
}

pub data Severity : Type 0 where
  normal_severity warning : Severity

unfoldable pub severity_text : Severity → Text
severity_text normal_severity = text "Normal"
severity_text warning = text "Warning"

unfoldable pub event_reason : StackEvent → Text
event_reason (update_created_event n) = text "StackUpdateDetected"
event_reason (update_succeeded_event n p) = text "StackCreated"
event_reason (update_failed_event n m) = text "UpdateFailed"
event_reason (lock_conflict_event n) = text "StackUpdateConflictDetected"
event_reason (destroy_started_event n) = text "StackUpdateDetected"
event_reason (destroy_failed_event n a) = text "StackUpdateFailure"
event_reason destroy_succeeded_event = text "StackDestroyed"
event_reason workspace_deleted_event = text "WorkspaceDeleted"
event_reason force_unlocked_event = text "LockForceUnlocked"
event_reason (stalled_event r e) = text "SpecInvalid"
event_reason (project_not_found_event p) = pending_deletion_project
event_reason project_ttl_expired_event = pending_deletion_ttl_expired

unfoldable pub severity : StackEvent → Severity
severity (update_created_event n) = normal_severity
severity (update_succeeded_event n p) = normal_severity
severity (destroy_started_event n) = normal_severity
severity destroy_succeeded_event = normal_severity
severity workspace_deleted_event = normal_severity
severity (update_failed_event n m) = warning
severity (lock_conflict_event n) = warning
severity (destroy_failed_event n a) = warning
severity force_unlocked_event = warning
severity (stalled_event r e) = warning
severity (project_not_found_event p) = warning
severity project_ttl_expired_event = warning

unfoldable pub note : (source : Text) → StackEvent → Text
note source (update_created_event n) = text "Update " ++ n ++ text " created"
note source (update_succeeded_event n none) = text "Update " ++ n ++ text " succeeded"
note source (update_succeeded_event n (some link)) =
    text "Update " ++ n ++ text " succeeded (" ++ link ++ text ")"
note source (update_failed_event n m) = text "Update " ++ n ++ text " failed: " ++ m
note source (lock_conflict_event n) = text "Update " ++ n ++ text " blocked by lock conflict"
note source (destroy_started_event n) = text "Destroy " ++ n ++ text " started"
note source (destroy_failed_event n a) =
    text "Destroy " ++ n ++ text " failed (attempt " ++ decimal_int a ++ text ")"
note source destroy_succeeded_event = text "Stack destroyed successfully"
note source workspace_deleted_event = text "Workspace deleted"
note source force_unlocked_event = text "Backend lock force-unlocked via CancelUpdate"
note source (stalled_event r e) = text "Stack stalled (" ++ r ++ text "): " ++ display source e
note source (project_not_found_event p) =
    text "Project " ++ p ++ text " not found, grace period started"
note source project_ttl_expired_event = text "Project grace period expired, executing cleanup"

pub record Payload : Type 0 where
  pub timestamp : Text
  pub stack_name_any : Text
  pub stack_namespace : Text
  pub stack_name : Text
  pub event_type : Text
  pub reason : Text
  pub message : Text
  pub severity : Text
  pub update : Option (Text × Option Text)

-- Events on the way trigger no webhook.
unfoldable pub notification_filter : StackEvent → Option NotificationEventFilter
notification_filter (update_succeeded_event n p) = some on_update_succeeded
notification_filter (update_failed_event n m) = some on_update_failed
notification_filter destroy_succeeded_event = some on_destroy_succeeded
notification_filter (destroy_failed_event n a) = some on_destroy_failed
notification_filter (lock_conflict_event n) = some on_lock_conflict
notification_filter (stalled_event r e) = some on_stalled
notification_filter (update_created_event n) = none
notification_filter (destroy_started_event n) = none
notification_filter workspace_deleted_event = none
notification_filter force_unlocked_event = none
notification_filter (project_not_found_event p) = none
notification_filter project_ttl_expired_event = none

-- The number of a filter, by which filters are compared.
abbrev pub filter_value : NotificationEventFilter → ℕ
filter_value on_update_succeeded = 0
filter_value on_update_failed = 1
filter_value on_destroy_succeeded = 2
filter_value on_destroy_failed = 3
filter_value on_lock_conflict = 4
filter_value on_stalled = 5

-- A webhook without a list of events is told of all.
unfoldable pub wants : NotificationEventFilter → NotificationWebhook → Bool
wants filter webhook = elim webhook.events [
  | [] ↦ true
  | e ∷ es ↦ any (λ f. filter_value f == filter_value filter) (e ∷ es)
]

-- The webhooks that are told of an event.
unfoldable pub webhooks_of : StackEvent → List NotificationWebhook → List NotificationWebhook
unfolding notification_filter wants
webhooks_of event notifications = elim (notification_filter event) [
  | none ↦ []
  | some filter ↦ retain (wants filter) notifications
]

-- The name of the event's Update, with the permalink of one that succeeded.
unfoldable pub update_of : StackEvent → Option (Text × Option Text)
update_of (update_created_event n) = some (n, none)
update_of (update_failed_event n m) = some (n, none)
update_of (lock_conflict_event n) = some (n, none)
update_of (destroy_started_event n) = some (n, none)
update_of (destroy_failed_event n a) = some (n, none)
update_of (update_succeeded_event n p) = some (n, p)
update_of destroy_succeeded_event = none
update_of workspace_deleted_event = none
update_of force_unlocked_event = none
update_of (stalled_event r e) = none
update_of (project_not_found_event p) = none
update_of project_ttl_expired_event = none

unfoldable pub build_payload : (source now : Text) → Stack → StackEvent → Payload
unfolding event_reason note severity severity_text update_of
build_payload source now stack event = record {
  timestamp = now;
  stack_name_any = name_any stack.metadata;
  stack_namespace = or_else stack.metadata.namespace [];
  stack_name = stack.spec.stack;
  event_type = event_reason event;
  reason = event_reason event;
  message = note source event;
  severity = severity_text (severity event);
  update = update_of event;
}
