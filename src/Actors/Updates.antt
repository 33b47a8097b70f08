-- ===== src/Actors/Updates.antt =====
-- src/operator/actors/actor.rs, `handle_action`: the branches about Updates.
use pulumi_rs_kube_operator.Base.{
  Option, none, some, [], ◌∷◌, ◌++◌, Text, text, decimal_int, pos, succ_u32, if◌then◌else◌,
}
use pulumi_rs_kube_operator.Core.Lock.{is_lock_error}
use pulumi_rs_kube_operator.Api.Conditions.{
  ready, reconciling, ready_completed, not_ready_in_progress, reconciling_processing,
  reconciling_retry,
}
use pulumi_rs_kube_operator.Api.Stack.{Stack, StackUpdateState}
use pulumi_rs_kube_operator.Operator.Messages.{NameKey, failure_retry, retry}
use pulumi_rs_kube_operator.Operator.LockState.{on_success}
use pulumi_rs_kube_operator.Operator.Events.{
  StackEvent, update_created_event, update_succeeded_event, update_failed_event,
  lock_conflict_event,
}
use pulumi_rs_kube_operator.Operator.Status.{
  Patched, unset, null, set_to, StatusPatch, condition, conditions_patch,
}
use pulumi_rs_kube_operator.Operator.Effects.{Env, M, read, pure, ◌>>=◌, ◌>>◌}
use pulumi_rs_kube_operator.Reconcile.Sync.{generation, cooldown}
use pulumi_rs_kube_operator.Actors.State.{ActorState}
use pulumi_rs_kube_operator.Actors.Requeue.{schedule_requeue, recover_lock}
use pulumi_rs_kube_operator.Actors.Requests.{
  attempt, record_event, reclaim_workspace, remove_update_finalizer,
}

unfoldable pub created_patch : Stack → Text → Text → StatusPatch
unfolding condition conditions_patch
created_patch stack now name =
    record (conditions_patch (generation stack) (
      condition reconciling (text "True") reconciling_processing
        (text "Update " ++ name ++ text " in progress") now (generation stack)
      ∷ condition ready (text "False") not_ready_in_progress (text "Update in progress") now
          (generation stack)
      ∷ [])) { current_update = set_to (record { generation = generation stack; name = name }) }

-- A new Update resets the lock state and the count of failures.
unfoldable pub on_update_created : Env → NameKey → Stack → ActorState → Text → M ActorState
unfolding created_patch
on_update_created env key stack st name = do
  record_event (update_created_event name)
  now ← read env.utc
  attempt env key (created_patch stack (env.to_rfc3339 now) name)
  pure (record st { lock_state = on_success st.lock_state; failure_count = 0 })

unfoldable pub succeeded_update : Stack → ActorState → Text → Text → Option Text → StackUpdateState
succeeded_update stack st now name permalink = record {
  generation = generation stack;
  reconcile_request = none;
  name = some name;
  update_type = some (text "up");
  state = some (text "succeeded");
  message = none;
  last_attempted_commit = none;
  last_successful_commit = st.last_commit;
  permalink = permalink;
  last_resync_time = some now;
  failures = pos 0;
}

-- Outputs that are no JSON are dropped.
unfoldable pub outputs_patch : Env → Option Text → Patched Text
outputs_patch env none = unset
outputs_patch env (some o) = if env.is_json o then set_to o else unset

unfoldable pub succeeded_patch :
    Env → Stack → ActorState → Text → Text → (permalink outputs : Option Text) → StatusPatch
unfolding condition conditions_patch succeeded_update outputs_patch
succeeded_patch env stack st now name permalink outputs =
    record (conditions_patch (generation stack) (
      condition ready (text "True") ready_completed (text "Stack update succeeded") now
        (generation stack)
      ∷ condition reconciling (text "False") ready_completed (text "") now (generation stack)
      ∷ [])) {
        current_update = null;
        last_update = set_to (succeeded_update stack st now name permalink);
        outputs = outputs_patch env outputs;
      }

unfoldable pub on_update_succeeded :
    Env → NameKey → Stack → ActorState → Text → (permalink outputs : Option Text) → M ActorState
unfolding succeeded_patch
on_update_succeeded env key stack st name permalink outputs = do
  record_event (update_succeeded_event name permalink)
  now ← read env.utc
  attempt env key (succeeded_patch env stack st (env.to_rfc3339 now) name permalink outputs)
  remove_update_finalizer env key.ns name
  reclaim_workspace env key stack
  pure (record st { failure_count = 0; lock_state = on_success st.lock_state })

unfoldable pub failed_update : Stack → ActorState → Text → Text → Text → StackUpdateState
failed_update stack st now name message = record {
  generation = generation stack;
  reconcile_request = none;
  name = some name;
  update_type = some (text "up");
  state = some (text "failed");
  message = some message;
  last_attempted_commit = st.last_commit;
  last_successful_commit = none;
  permalink = none;
  last_resync_time = some now;
  failures = pos st.failure_count;
}

-- `st` is the state with the failure counted.
unfoldable pub failed_patch : Stack → ActorState → Text → Text → Text → StatusPatch
unfolding condition conditions_patch failed_update
failed_patch stack st now name message =
    record (conditions_patch (generation stack) (
      condition ready (text "False") not_ready_in_progress (text "Update failed: " ++ message) now
        (generation stack)
      ∷ condition reconciling (text "True") reconciling_retry
          (text "Retrying after failure (attempt "
            ++ decimal_int (pos st.failure_count)
            ++ text ")")
          now (generation stack)
      ∷ [])) {
        current_update = null;
        last_update = set_to (failed_update stack st now name message);
      }

unfoldable pub failure_event : Text → Text → StackEvent
failure_event name message =
    if is_lock_error message then lock_conflict_event name else update_failed_event name message

abbrev pub count_failure : ActorState → ActorState
count_failure st = record st { failure_count = succ_u32 st.failure_count }

-- Recovery after a failed Update: of the lock, or after the cooldown.
unfoldable pub retry_failed : Env → Stack → ActorState → Text → M ActorState
retry_failed env stack st message =
    if is_lock_error message
    then recover_lock env st
    else schedule_requeue env st (cooldown (pos st.failure_count) stack) failure_retry retry

unfoldable pub on_update_failed :
    Env → NameKey → Stack → ActorState → (name message : Text) → M ActorState
unfolding failed_patch failure_event retry_failed
on_update_failed env key stack st name message = do
  record_event (failure_event name message)
  now ← read env.utc
  attempt env key (failed_patch stack (count_failure st) (env.to_rfc3339 now) name message)
  remove_update_finalizer env key.ns name
  retry_failed env stack (count_failure st) message
