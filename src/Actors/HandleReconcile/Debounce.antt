-- ===== src/Actors/HandleReconcile/Debounce.antt =====
-- src/operator/actors/actor.rs, `handle_reconcile`: the messages that the debounce drops.
use pulumi_rs_kube_operator.Base.{
  false, some, ◌≡◌, refl, lt→ltb, Text, ◌<◌, ◌+◌, from_secs, Instant,
}
use pulumi_rs_kube_operator.Api.Stack.{Stack}
use pulumi_rs_kube_operator.Operator.Messages.{NameKey, ReconcileTrigger}
use pulumi_rs_kube_operator.Operator.Effects.{Env, History, read, perform, pure}
use pulumi_rs_kube_operator.Reconcile.Action.{wait_for_update}
use pulumi_rs_kube_operator.Actors.State.{ActorState}
use pulumi_rs_kube_operator.Actors.Requeue.{schedule_requeue}
use pulumi_rs_kube_operator.Actors.HandleAction.{handle_action}
use pulumi_rs_kube_operator.Actors.HandleReconcile.{handle_reconcile, debounced, is_scheduled}

-- Before the time that the actor waits for, a message that is not a scheduled retry changes nothing
-- and has no effect: the message is lost.
pub handle_reconcile-dropped :
    (env : Env) (key : NameKey) (st : ActorState) (trigger : ReconcileTrigger) (h : History)
    {next_at : Instant}
    → st.next_reconcile_at ≡ some next_at
    → env.instant h < next_at
    → is_scheduled trigger ≡ false
    → ((handle_reconcile env key st trigger h).0 ≡ some st)
      × ((handle_reconcile env key st trigger h).1.effects ≡ h.effects)
unfolding handle_reconcile debounced read pure
handle_reconcile-dropped env key st trigger h n l s =
    let b = lt→ltb _ _ l in (rw (n, s, b) refl, rw (n, s, b) refl)

-- While the actor waits for an Update, the event that the Update has completed is dropped for
-- thirty seconds: the pipeline's next look at the Update is the scheduled one.
pub wait_for_update-drops_completion :
    (env : Env) (key : NameKey) (stack : Stack) (st : ActorState) (name : Text)
    (completed : ReconcileTrigger) (h later : History)
    → is_scheduled completed ≡ false
    → env.instant later < env.instant h + from_secs 30
    → let st' = (handle_action env key stack st (wait_for_update name) h).0 in
      ((handle_reconcile env key st' completed later).0 ≡ some st')
      × ((handle_reconcile env key st' completed later).1.effects ≡ later.effects)
unfolding handle_action schedule_requeue read perform pure
wait_for_update-drops_completion env key stack st name completed h later s l =
    handle_reconcile-dropped env key _ completed later refl l s
