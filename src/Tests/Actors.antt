-- ===== src/Tests/Actors.antt =====
-- The actors at concrete inputs.
use pulumi_rs_kube_operator.Base.{
  true, false, some, List, [], ◌∷◌, text, from_secs, ◌≡◌, refl, arith,
}
use pulumi_rs_kube_operator.Errors.{transient, connection_failed}
use pulumi_rs_kube_operator.Core.Recovery.{recovery_action, transient_action, retry_with_backoff}
use pulumi_rs_kube_operator.Operator.Messages.{
  PrioritizedMessage, deletion, normal, reconcile, shutdown, update_completed, stack_changed,
}
use pulumi_rs_kube_operator.Reconcile.Action.{project_missing, wait_for_update}
use pulumi_rs_kube_operator.Actors.State.{ActorState, default_state}
use pulumi_rs_kube_operator.Actors.HandleAction.{handle_action}
use pulumi_rs_kube_operator.Actors.HandleAction.Requeues.{handle_action-Requeued, Requeued}
use pulumi_rs_kube_operator.Actors.HandleError.{handle_error}
use pulumi_rs_kube_operator.Actors.HandleError.Backoff.{handle_error-retries, Retried}
use pulumi_rs_kube_operator.Actors.HandleReconcile.{handle_reconcile, is_scheduled}
use pulumi_rs_kube_operator.Actors.HandleReconcile.Debounce.{wait_for_update-drops_completion}
use pulumi_rs_kube_operator.Actors.Requests.{cleanup_orphaned_updates}
use pulumi_rs_kube_operator.Actors.Requests.Orphans.{cleanup-Cleared, Cleared}
use pulumi_rs_kube_operator.Base.{ok}
use pulumi_rs_kube_operator.Api.Update.{Update}
use pulumi_rs_kube_operator.Operator.Effects.{Env}
use pulumi_rs_kube_operator.Operator.Finalizers.{build_update_with_finalizer}
use pulumi_rs_kube_operator.Api.Owner.{stack_owner_ref}
use pulumi_rs_kube_operator.Tests.Data.{up_update}
use pulumi_rs_kube_operator.Actors.Run.{handle_message}
use pulumi_rs_kube_operator.Actors.Run.Batches.{batch-Handled, Handled}
use pulumi_rs_kube_operator.Actors.Dispatcher.{
  Actors, Sent, sent, full, dispatch_with_priority, shutdown_all,
}
use pulumi_rs_kube_operator.Actors.Dispatcher.Shutdown.{
  shutdown_all-closes_nothing, dispatched, no_actor, NoneClosed, Received, message, pending, closed,
}
use pulumi_rs_kube_operator.Base.{ℕ, zero, suc, arith}
use pulumi_rs_kube_operator.Tests.Data.{key, stack, env, start, update_name}

handle_action-Requeued_example :
    Requeued env true default_state start
      (handle_action env key stack default_state (project_missing (text "p")) start)
handle_action-Requeued_example =
    handle_action-Requeued env key stack default_state (project_missing (text "p")) start

is_retried : recovery_action (transient connection_failed) ≡ retry_with_backoff 5000 60000
unfolding recovery_action transient_action
is_retried = refl

handle_error-retries_example :
    Retried env default_state start 5000 60000
      (handle_error env default_state (transient connection_failed) start)
handle_error-retries_example =
    handle_error-retries env default_state (transient connection_failed) start is_retried
      (omega arith)

-- A state that waits until the moment 2000, while the clock of `env` says 1000.
abbrev waiting : ActorState
waiting = record default_state { next_reconcile_at = some (from_secs 2000) }

not_scheduled : is_scheduled update_completed ≡ false
unfolding is_scheduled
not_scheduled = refl

wait_for_update-drops_completion_example :
    let st' = (handle_action env key stack default_state (wait_for_update update_name) start).0 in
    ((handle_reconcile env key st' update_completed start).0 ≡ some st')
    × ((handle_reconcile env key st' update_completed start).1.effects ≡ start.effects)
wait_for_update-drops_completion_example =
    wait_for_update-drops_completion env key stack default_state update_name update_completed start
      start not_scheduled (omega arith)

abbrev two_messages : List PrioritizedMessage
two_messages =
    record { priority = normal; inner = reconcile stack_changed }
    ∷ record { priority = deletion; inner = shutdown }
    ∷ []

batch-Handled_example : Handled (handle_message env key) two_messages
batch-Handled_example = batch-Handled (handle_message env key) two_messages

-- A channel that holds its messages in order, up to a capacity of one.
abbrev Queue : Type 0
Queue = List PrioritizedMessage

abbrev empty_queue : ℕ → Queue
empty_queue capacity = []

abbrev try_push : PrioritizedMessage → Queue → Sent × Queue
try_push m [] = (sent, m ∷ [])
try_push m (n ∷ ns) = (full, n ∷ ns)

abbrev receive : Queue → ℕ → Received Queue
receive (m ∷ ms) senders = message m ms
receive [] zero = closed
receive [] (suc n) = pending

receive-closed : (queue : Queue) (senders : ℕ) → receive queue senders ≡ closed → senders ≡ 0
receive-closed (m ∷ ms) senders e = absurd (ground arith)
receive-closed [] zero e = refl
receive-closed [] (suc n) e = absurd (ground arith)

-- The table after the first message to an actor.
abbrev one_actor : Actors Queue
one_actor = (dispatch_with_priority empty_queue try_push key normal (reconcile stack_changed) []).1

shutdown_all-closes_nothing_example : NoneClosed receive (shutdown_all one_actor)
shutdown_all-closes_nothing_example =
    shutdown_all-closes_nothing receive empty_queue try_push receive-closed
      (dispatched key normal (reconcile stack_changed) no_actor)

-- An Update that the stack owns, behind one that it does not.
abbrev two_updates : List Update
two_updates =
    up_update
    ∷ build_update_with_finalizer update_name key.ns up_update.spec (stack_owner_ref stack true)
    ∷ []

abbrev listing : Env
listing = record env { list_updates = λ ns h. ok two_updates }

cleanup-Cleared_example :
    Cleared key two_updates start.effects (cleanup_orphaned_updates listing key start).1.effects
cleanup-Cleared_example = cleanup-Cleared listing key start refl
