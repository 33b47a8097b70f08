-- ===== src/Actors/HandleReconcile.antt =====
-- src/operator/actors/actor.rs, `handle_reconcile`: one reconcile message. The result is none if a
-- panic ended the process.
pub mod Debounce
use pulumi_rs_kube_operator.Base.{
  ℕ, Bool, true, false, ◌&&◌, not, Option, none, some, Result, ok, err, Text, pos_part, Instant,
  Duration, from_secs, leb, ltb, ◌==◌, if◌then◌else◌,
}
use pulumi_rs_kube_operator.Api.Stack.{Stack}
use pulumi_rs_kube_operator.Operator.Messages.{
  NameKey, ReconcileTrigger, stack_changed, workspace_changed, update_completed, prerequisite_ready,
  source_changed, timer, manual_request, retry, lock_retry, failure_retry,
}
use pulumi_rs_kube_operator.Operator.LockState.{set_timeout}
use pulumi_rs_kube_operator.Operator.Events.{reconciles, reconcile_errors}
use pulumi_rs_kube_operator.Operator.Effects.{
  Env, M, Kube, api, other_error, read, perform, pure, metric, Fault, raised, panicked, ◌>>=◌, ◌>>◌,
}
use pulumi_rs_kube_operator.Reconcile.Pipeline.{Outcome, run_pipeline}
use pulumi_rs_kube_operator.Actors.State.{ActorState}
use pulumi_rs_kube_operator.Actors.Requeue.{schedule_requeue}
use pulumi_rs_kube_operator.Actors.Requests.{cleanup_orphaned_updates, handle_force_unlock}
use pulumi_rs_kube_operator.Actors.HandleAction.{handle_action}
use pulumi_rs_kube_operator.Actors.HandleError.{handle_error}

unfoldable pub is_scheduled : ReconcileTrigger → Bool
is_scheduled retry = true
is_scheduled lock_retry = true
is_scheduled _ = false

unfoldable pub is_lock_retry : ReconcileTrigger → Bool
is_lock_retry lock_retry = true
is_lock_retry _ = false

-- Only a scheduled retry gets through before the time that is set.
unfoldable pub debounced : ActorState → Instant → ReconcileTrigger → Bool
unfolding is_scheduled
debounced st now trigger = elim st.next_reconcile_at [
  | none ↦ false
  | some next_at ↦ ltb now next_at && not (is_scheduled trigger)
]

-- `spec.lock_timeout_seconds.max(60)`
unfoldable pub lock_timeout : Stack → Duration
lock_timeout stack = from_secs (
    if leb 60 (pos_part stack.spec.lock_timeout_seconds)
    then pos_part stack.spec.lock_timeout_seconds
    else 60)

abbrev pub remember : ActorState → Option Text → ActorState
remember st none = st
remember st (some commit) = record st { last_commit = some commit }

unfoldable pub finish :
    Env → NameKey → Stack → ActorState → Result Fault Outcome → M (Option ActorState)
finish env key stack st (ok (action, commit)) = do
  st' ← handle_action env key stack (remember st commit) action
  pure (some st')
finish env key stack st (err (raised e)) = do
  perform (metric reconcile_errors)
  st' ← handle_error env st e
  pure (some st')
finish env key stack st (err panicked) = pure none

unfoldable pub unlock_first : Env → NameKey → Stack → ActorState → ReconcileTrigger → M ActorState
unfolding is_lock_retry
unlock_first env key stack st trigger =
    if is_lock_retry trigger then handle_force_unlock env key stack st else pure st

unfoldable pub reconcile_stack :
    Env → NameKey → Stack → ActorState → ReconcileTrigger → M (Option ActorState)
unfolding lock_timeout unlock_first finish
reconcile_stack env key stack st trigger = do
  let st1 = record st { lock_state = set_timeout (lock_timeout stack) st.lock_state }
  st2 ← unlock_first env key stack st1 trigger
  result ← run_pipeline env key stack
  finish env key stack st2 result

unfoldable pub retry_get : Env → ActorState → M (Option ActorState)
retry_get env st = do
  perform (metric reconcile_errors)
  st' ← schedule_requeue env st (from_secs 5) failure_retry retry
  pure (some st')

unfoldable pub stack_reply :
    Env → NameKey → ActorState → ReconcileTrigger → Kube Stack → M (Option ActorState)
unfolding reconcile_stack retry_get
stack_reply env key st trigger (ok stack) = reconcile_stack env key stack st trigger
stack_reply env key st trigger (err (api code)) =
    if code == 404 then (do cleanup_orphaned_updates env key; pure (some st)) else retry_get env st
stack_reply env key st trigger (err other_error) = retry_get env st

unfoldable pub handle_reconcile :
    Env → NameKey → ActorState → ReconcileTrigger → M (Option ActorState)
unfolding debounced stack_reply
handle_reconcile env key st trigger = do
  now ← read env.instant
  if debounced st now trigger then pure (some st) else (do
    perform (metric reconciles)
    reply ← read (env.get_stack key)
    stack_reply env key (record st { next_reconcile_at = none }) trigger reply)
