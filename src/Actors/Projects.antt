-- ===== src/Actors/Projects.antt =====
-- src/operator/actors/actor.rs, `handle_action`: the branches about the cloud project.
use pulumi_rs_kube_operator.Base.{Option, none, some, or_else, [], ◌∷◌, ◌++◌, Text, text, from_secs}
use pulumi_rs_kube_operator.Api.Conditions.{
  pending_deletion, pending_deletion_project, pending_deletion_reinstated,
  pending_deletion_ttl_expired,
}
use pulumi_rs_kube_operator.Api.Stack.{
  Stack, ProjectVerification, GracePeriodAction, delete_kustomization, remove_finalizer,
}
use pulumi_rs_kube_operator.Operator.Messages.{NameKey, normal, retry}
use pulumi_rs_kube_operator.Operator.Events.{project_not_found_event, project_ttl_expired_event}
use pulumi_rs_kube_operator.Operator.Status.{null, set_to, StatusPatch, condition, conditions_patch}
use pulumi_rs_kube_operator.Operator.Effects.{Env, M, read, pure, ◌>>=◌, ◌>>◌}
use pulumi_rs_kube_operator.Reconcile.Sync.{generation}
use pulumi_rs_kube_operator.Reconcile.Project.{active, project_not_found, build_check_status}
use pulumi_rs_kube_operator.Reconcile.Pipeline.{pending_since}
use pulumi_rs_kube_operator.Actors.State.{ActorState}
use pulumi_rs_kube_operator.Actors.Requeue.{schedule_requeue}
use pulumi_rs_kube_operator.Actors.Requests.{
  attempt, record_event, reclaim_workspace, remove_stack_finalizer, delete_owning_kustomization,
}

-- `pendingDeletionSince` is kept if it is there; `checked` is the clock of the check's status.
unfoldable pub missing_patch : Stack → (now checked : Text) → Text → StatusPatch
unfolding condition conditions_patch pending_since build_check_status
missing_patch stack now checked project_id =
    record (conditions_patch (generation stack) (
      condition pending_deletion (text "True") pending_deletion_project
        (text "Project " ++ project_id ++ text " not found, grace period active") now
        (generation stack)
      ∷ [])) {
        pending_deletion_since = set_to (or_else (pending_since stack) now);
        last_project_check = set_to (build_check_status checked (project_not_found project_id));
      }

unfoldable pub on_project_missing : Env → NameKey → Stack → ActorState → Text → M ActorState
unfolding missing_patch
on_project_missing env key stack st project_id = do
  record_event (project_not_found_event project_id)
  now ← read env.utc
  checked ← read env.utc
  attempt env key (missing_patch stack (env.to_rfc3339 now) (env.to_rfc3339 checked) project_id)
  schedule_requeue env st (from_secs 300) normal retry

unfoldable pub reinstated_patch : Stack → (now checked : Text) → StatusPatch
unfolding condition conditions_patch build_check_status
reinstated_patch stack now checked =
    record (conditions_patch (generation stack) (
      condition pending_deletion (text "False") pending_deletion_reinstated
        (text "Project found, pending deletion cleared") now (generation stack)
      ∷ [])) {
        pending_deletion_since = null;
        last_project_check = set_to (build_check_status checked active);
      }

unfoldable pub on_project_reinstated : Env → NameKey → Stack → ActorState → M ActorState
unfolding reinstated_patch
on_project_reinstated env key stack st = do
  now ← read env.utc
  checked ← read env.utc
  attempt env key (reinstated_patch stack (env.to_rfc3339 now) (env.to_rfc3339 checked))
  schedule_requeue env st (from_secs 1) normal retry

unfoldable pub expired_patch : Stack → Text → StatusPatch
unfolding condition conditions_patch
expired_patch stack now = conditions_patch (generation stack) (
    condition pending_deletion (text "True") pending_deletion_ttl_expired
      (text "Grace period expired, executing cleanup") now (generation stack)
    ∷ [])

-- The configured action, or the default one.
abbrev pub expiry_action : Option ProjectVerification → GracePeriodAction
expiry_action none = delete_kustomization
expiry_action (some v) = v.on_grace_period_expired

unfoldable pub expire : Env → NameKey → Stack → GracePeriodAction → M (Unit {0})
expire env key stack delete_kustomization = delete_owning_kustomization env key stack
expire env key stack remove_finalizer = do
  reclaim_workspace env key stack
  remove_stack_finalizer env key stack

unfoldable pub on_project_ttl_expired : Env → NameKey → Stack → ActorState → M ActorState
unfolding expired_patch expire
on_project_ttl_expired env key stack st = do
  record_event project_ttl_expired_event
  now ← read env.utc
  attempt env key (expired_patch stack (env.to_rfc3339 now))
  expire env key stack (expiry_action stack.spec.project_verification)
  pure st
