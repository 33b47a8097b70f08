-- ===== src/Reconcile/Pipeline/Expiry.antt =====
-- src/operator/reconcile/pipeline.rs and project.rs: when a missing cloud project has a stack cleaned
-- up.
use pulumi_rs_kube_operator.Base.{◌*◌, ◌%◌, ◌≤◌, some, Text, Instant, ◌≡◌, from_secs, pos_part}
use pulumi_rs_kube_operator.Core.Time.{elapsed_since}
use pulumi_rs_kube_operator.Api.Stack.{Stack}
use pulumi_rs_kube_operator.Operator.Effects.{Env}
use pulumi_rs_kube_operator.Reconcile.Project.{ProjectCheckResult, project_not_found}
use pulumi_rs_kube_operator.Reconcile.Pipeline.{pending_since, grace_days}

-- The project is missing, and has been for the seconds of the grace period as they are computed.
pub record Expired (env : Env) (stack : Stack) (now : Instant) (result : ProjectCheckResult)
    : Type 0 where
  pub project_id : Text
  pub missing : result ≡ project_not_found project_id
  pub since : Text
  pub pending : pending_since stack ≡ some since
  pub overdue :
      from_secs
        (pos_part (grace_days stack.spec.project_verification) * 86400 % 18446744073709551616)
      ≤ elapsed_since env.parse_rfc3339 now (some since)
