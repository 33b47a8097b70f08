-- ===== src/Errors.antt =====
-- src/errors.rs: the operator's errors. A payload that only a log line shows is left out.
use pulumi_rs_kube_operator.Base.{Text, text, ◌++◌, Bool, true, false}

pub data TransientError : Type 0 where
  connection_failed status_update_conflict workspace_not_ready update_not_found : TransientError
  artifact_not_ready prerequisite_not_satisfied operation_timeout : TransientError
  agent_retriable : (message : Text) → TransientError
  kube_api kube_api_detailed : (reason : Text) → TransientError

pub data PermanentError : Type 0 where
  spec_invalid deprecated_ref_type : (field : Text) → PermanentError
  source_unavailable pulumi_version_too_low invalid_access_token : PermanentError
  update_failed program_not_found namespace_isolation : PermanentError
  artifact_build_failed : (message : Text) → PermanentError

pub data LockError : Type 0 where
  update_conflict pending_operations : LockError

pub data OperatorError : Type 0 where
  transient : TransientError → OperatorError
  permanent : PermanentError → OperatorError
  lock : LockError → OperatorError

-- Only permanent errors notify Flux.
unfoldable pub should_notify : OperatorError → Bool
should_notify (permanent e) = true
should_notify (transient e) = false
should_notify (lock e) = false

unfoldable pub permanent_reason : PermanentError → Text
permanent_reason (spec_invalid f) = text "SpecInvalid"
permanent_reason source_unavailable = text "SourceUnavailable"
permanent_reason pulumi_version_too_low = text "PulumiVersionTooLow"
permanent_reason invalid_access_token = text "InvalidAccessToken"
permanent_reason update_failed = text "UpdateFailed"
permanent_reason program_not_found = text "SourceUnavailable"
permanent_reason (deprecated_ref_type k) = text "SpecInvalid"
permanent_reason namespace_isolation = text "SpecInvalid"
permanent_reason (artifact_build_failed m) = text "SpecInvalid"

unfoldable pub condition_reason : OperatorError → Text
unfolding permanent_reason
condition_reason (permanent e) = permanent_reason e
condition_reason (transient e) = text "RetryingAfterFailure"
condition_reason (lock e) = text "UpdateConflict"

-- `Display` of the errors; `source` is what the error of the client library prints.
unfoldable pub display_transient : (source : Text) → TransientError → Text
display_transient source connection_failed = text "connection to workspace failed"
display_transient source status_update_conflict = text "status update conflict"
display_transient source workspace_not_ready = text "workspace not ready"
display_transient source update_not_found = text "update not found"
display_transient source artifact_not_ready = text "artifact not ready"
display_transient source prerequisite_not_satisfied = text "prerequisite not satisfied"
display_transient source operation_timeout = text "operation timed out"
display_transient source (agent_retriable message) = text "agent error: " ++ message
display_transient source (kube_api reason) = text "kube API error: " ++ reason
display_transient source (kube_api_detailed reason) =
    text "kube API error: " ++ reason ++ text ": " ++ source

unfoldable pub display_permanent : PermanentError → Text
display_permanent (spec_invalid field) = text "spec invalid: " ++ field
display_permanent source_unavailable = text "source unavailable"
display_permanent pulumi_version_too_low = text "pulumi version too low"
display_permanent invalid_access_token = text "invalid access token"
display_permanent update_failed = text "update failed"
display_permanent program_not_found = text "program not found"
display_permanent (deprecated_ref_type kind) = text "deprecated ref type: " ++ kind
display_permanent namespace_isolation = text "cross-namespace ref not allowed"
display_permanent (artifact_build_failed message) = text "artifact build failed: " ++ message

unfoldable pub display_lock : LockError → Text
display_lock update_conflict = text "update conflict (lock held)"
display_lock pending_operations = text "pending operations"

unfoldable pub display : (source : Text) → OperatorError → Text
unfolding display_transient display_permanent display_lock
display source (transient e) = display_transient source e
display source (permanent e) = display_permanent e
display source (lock e) = display_lock e

-- The errors of start-up and of servers, with what an error of a library prints.
pub data RunError : Type 0 where
  kube io transport addr_parse hyper init_failed : (message : Text) → RunError
  controller_exited generic : (message : Text) → RunError

unfoldable pub run_error_text : RunError → Text
run_error_text (kube m) = text "kube client: " ++ m
run_error_text (io m) = text "io: " ++ m
run_error_text (transport m) = text "transport: " ++ m
run_error_text (addr_parse m) = text "address parse: " ++ m
run_error_text (hyper m) = text "hyper: " ++ m
run_error_text (init_failed m) = text "init: " ++ m
run_error_text (controller_exited m) = text "controller exited unexpectedly: " ++ m
run_error_text (generic m) = m
