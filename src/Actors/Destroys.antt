-- ===== src/Actors/Destroys.antt =====
-- src/operator/actors/actor.rs, `handle_action`: the branches about destroy runs.
use pulumi_rs_kube_operator.Base.{
  ℕ, ◌-◌, ◌%◌, min, none, some, [], ◌∷◌, ◌++◌, Text, text, decimal_int, ℤ, pos, negsuc, u32_max,
}
use pulumi_rs_kube_operator.Api.Conditions.{reconciling, reconciling_processing, reconciling_retry}
use pulumi_rs_kube_operator.Api.Stack.{Stack, StackUpdateState}
use pulumi_rs_kube_operator.Operator.Messages.{NameKey, failure_retry, retry}
use pulumi_rs_kube_operator.Operator.Events.{
  destroy_started_event, destroy_failed_event, destroy_succeeded_event,
}
use pulumi_rs_kube_operator.Operator.Status.{null, set_to, StatusPatch, condition, conditions_patch}
use pulumi_rs_kube_operator.Operator.Effects.{Env, M, read, pure, ◌>>=◌, ◌>>◌}
use pulumi_rs_kube_operator.Reconcile.Sync.{generation, cooldown}
use pulumi_rs_kube_operator.Actors.State.{ActorState}
use pulumi_rs_kube_operator.Actors.Requeue.{schedule_requeue}
use pulumi_rs_kube_operator.Actors.Requests.{
  attempt, record_event, reclaim_workspace, remove_stack_finalizer,
}

unfoldable pub on_destroyed : Env → NameKey → Stack → ActorState → M ActorState
on_destroyed env key stack st = do
  record_event destroy_succeeded_event
  reclaim_workspace env key stack
  remove_stack_finalizer env key stack
  pure st

unfoldable pub destroy_started_patch : Stack → Text → Text → StatusPatch
unfolding condition conditions_patch
destroy_started_patch stack now name =
    record (conditions_patch (generation stack) (
      condition reconciling (text "True") reconciling_processing
        (text "Destroy " ++ name ++ text " in progress") now (generation stack)
      ∷ [])) { current_update = set_to (record { generation = generation stack; name = name }) }

unfoldable pub on_destroy_started : Env → NameKey → Stack → ActorState → Text → M ActorState
unfolding destroy_started_patch
on_destroy_started env key stack st name = do
  record_event (destroy_started_event name)
  now ← read env.utc
  attempt env key (destroy_started_patch stack (env.to_rfc3339 now) name)
  pure st

-- `failures.min(u32::MAX as i64) as u32`
unfoldable pub as_u32 : ℤ → ℕ
as_u32 (pos n) = min n u32_max
as_u32 (negsuc n) = u32_max - n % 4294967296

unfoldable pub destroy_failed_update : Stack → Text → Text → ℤ → StackUpdateState
destroy_failed_update stack now name failures = record {
  generation = generation stack;
  reconcile_request = none;
  name = some name;
  update_type = some (text "destroy");
  state = some (text "failed");
  message = none;
  last_attempted_commit = none;
  last_successful_commit = none;
  permalink = none;
  last_resync_time = some now;
  failures = failures;
}

unfoldable pub destroy_failed_patch : Stack → Text → Text → ℤ → StatusPatch
unfolding condition conditions_patch destroy_failed_update
destroy_failed_patch stack now name failures =
    record (conditions_patch (generation stack) (
      condition reconciling (text "True") reconciling_retry
        (text "Destroy failed, retrying (attempt " ++ decimal_int failures ++ text ")") now
        (generation stack)
      ∷ [])) {
        current_update = null;
        last_update = set_to (destroy_failed_update stack now name failures);
      }

unfoldable pub on_destroy_failed : Env → NameKey → Stack → ActorState → Text → ℤ → M ActorState
unfolding destroy_failed_patch as_u32
on_destroy_failed env key stack st name failures = do
  record_event (destroy_failed_event name failures)
  now ← read env.utc
  attempt env key (destroy_failed_patch stack (env.to_rfc3339 now) name failures)
  schedule_requeue env (record st { failure_count = as_u32 failures }) (cooldown failures stack)
      failure_retry retry
