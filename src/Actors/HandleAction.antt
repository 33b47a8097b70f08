-- ===== src/Actors/HandleAction.antt =====
-- src/operator/actors/actor.rs, `handle_action`: the match on the pipeline's action.
pub mod Requeues
use pulumi_rs_kube_operator.Base.{Text, from_secs}
use pulumi_rs_kube_operator.Api.Stack.{Stack}
use pulumi_rs_kube_operator.Operator.Messages.{NameKey, normal, retry}
use pulumi_rs_kube_operator.Operator.Effects.{
  Env, M, request, apply_stack_finalizer, pure, ◌>>=◌, ◌>>◌,
}
use pulumi_rs_kube_operator.Reconcile.Action.{
  ReconcileAction, add_finalizer, done, remove_finalizer, synced, wait_for_workspace,
  wait_for_update, update_created, destroy_started, destroy_failed, remove_finalizer_after_destroy,
  project_missing, project_reinstated, project_ttl_expired, update_succeeded, update_failed,
}
use pulumi_rs_kube_operator.Actors.State.{ActorState}
use pulumi_rs_kube_operator.Actors.Requeue.{schedule_requeue}
use pulumi_rs_kube_operator.Actors.Requests.{remove_stack_finalizer}
use pulumi_rs_kube_operator.Actors.Updates.{
  on_update_created, on_update_succeeded, on_update_failed,
}
use pulumi_rs_kube_operator.Actors.Destroys.{on_destroyed, on_destroy_started, on_destroy_failed}
use pulumi_rs_kube_operator.Actors.Projects.{
  on_project_missing, on_project_reinstated, on_project_ttl_expired,
}

unfoldable pub handle_action : Env → NameKey → Stack → ActorState → ReconcileAction → M ActorState
handle_action env key stack st add_finalizer = do request env (apply_stack_finalizer key); pure st
handle_action env key stack st remove_finalizer = do remove_stack_finalizer env key stack; pure st
handle_action env key stack st remove_finalizer_after_destroy = on_destroyed env key stack st
handle_action env key stack st (update_created name) = on_update_created env key stack st name
handle_action env key stack st (update_succeeded name permalink outputs) =
    on_update_succeeded env key stack st name permalink outputs
handle_action env key stack st (update_failed name message) =
    on_update_failed env key stack st name message
handle_action env key stack st (destroy_started name) = on_destroy_started env key stack st name
handle_action env key stack st (destroy_failed name failures) =
    on_destroy_failed env key stack st name failures
handle_action env key stack st (wait_for_update name) =
    schedule_requeue env st (from_secs 30) normal retry
handle_action env key stack st wait_for_workspace =
    schedule_requeue env st (from_secs 5) normal retry
handle_action env key stack st (project_missing project_id) =
    on_project_missing env key stack st project_id
handle_action env key stack st project_reinstated = on_project_reinstated env key stack st
handle_action env key stack st project_ttl_expired = on_project_ttl_expired env key stack st
handle_action env key stack st synced = pure st
handle_action env key stack st done = pure st
