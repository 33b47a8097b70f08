-- ===== src/Reconcile/Workspace.antt =====
-- src/operator/reconcile/pipeline.rs, `ensure_workspace` and `ensure_program_finalizer`. The
-- manifests that are applied are not modelled, only that they are.
use pulumi_rs_kube_operator.Base.{
  ℕ, Bool, true, false, Option, or_else, ok, err, Text, text, ◌++◌, leb, ◌==◌, if◌then◌else◌,
}
use pulumi_rs_kube_operator.Errors.{
  OperatorError, transient, permanent, kube_api_detailed, workspace_not_ready, program_not_found,
}
use pulumi_rs_kube_operator.Api.Meta.{has_finalizer}
use pulumi_rs_kube_operator.Api.Conditions.{program_finalizer}
use pulumi_rs_kube_operator.Api.Owner.{stack_owner_ref}
use pulumi_rs_kube_operator.Api.Stack.{Stack}
use pulumi_rs_kube_operator.Api.Workspace.{Workspace}
use pulumi_rs_kube_operator.Operator.Messages.{NameKey}
use pulumi_rs_kube_operator.Operator.Effects.{
  Env, Op, Kube, KubeError, api, other_error, read, request, create_workspace, apply_statefulset,
  apply_service, apply_program_finalizer,
}
use pulumi_rs_kube_operator.Operator.Fallible.{◌>>=◌, ◌>>◌, return, throw, lift, map_err}

-- `map_err` to a detailed API error with this reason
abbrev pub api_failed : Text → KubeError → OperatorError
api_failed reason e = transient (kube_api_detailed reason)

unfoldable pub program_get_error : KubeError → OperatorError
program_get_error (api code) =
    if code == 404
    then permanent program_not_found
    else transient (kube_api_detailed (text "failed to get program"))
program_get_error other_error = transient (kube_api_detailed (text "failed to get program"))

unfoldable pub ensure_program_finalizer : Env → Text → Text → Op (Unit {0})
unfolding program_get_error
ensure_program_finalizer env ns program_name = do
  program ← map_err program_get_error (read (env.get_program ns program_name))
  if has_finalizer program.metadata program_finalizer
      then return tt
      else map_err (api_failed (text "failed to add program finalizer"))
          (request env (apply_program_finalizer ns program_name))

-- At least one ready replica; an error counts as not ready.
unfoldable pub replicas_ready : Kube (Option ℕ) → Bool
replicas_ready (ok replicas) = leb 1 (or_else replicas 0)
replicas_ready (err e) = false

abbrev pub resource_name : NameKey → Text
resource_name key = key.name ++ text "-workspace"

-- The workspace exists: apply its StatefulSet and Service, and look at the replicas.
unfoldable pub refresh_workspace : Env → NameKey → Op Bool
unfolding replicas_ready
refresh_workspace env key = do
  map_err (api_failed (text "failed to apply statefulset"))
      (request env (apply_statefulset key.ns (resource_name key)))
  map_err (api_failed (text "failed to apply workspace service"))
      (request env (apply_service key.ns (resource_name key)))
  replicas ← lift (read (env.ready_replicas key.ns (resource_name key)))
  return (replicas_ready replicas)

unfoldable pub new_workspace : Env → NameKey → Stack → Op Bool
new_workspace env key stack = do
  map_err (api_failed (text "failed to create workspace"))
      (request env (create_workspace key (stack_owner_ref stack true)))
  return false

unfoldable pub workspace_reply : Env → NameKey → Stack → Kube Workspace → Op Bool
unfolding refresh_workspace new_workspace
workspace_reply env key stack (ok ws) = refresh_workspace env key
workspace_reply env key stack (err (api code)) =
    if code == 404 then new_workspace env key stack else throw (transient workspace_not_ready)
workspace_reply env key stack (err other_error) = throw (transient workspace_not_ready)

unfoldable pub ensure_workspace : Env → NameKey → Stack → Op Bool
unfolding workspace_reply
ensure_workspace env key stack = do
  reply ← lift (read (env.get_workspace key.ns key.name))
  workspace_reply env key stack reply
