-- ===== src/Actors/Requeue.antt =====
-- src/operator/actors/actor.rs: delayed messages to oneself, and recovery from a lock conflict. The
-- task that `schedule_requeue` spawns is the effect `requeue`.
use pulumi_rs_kube_operator.Base.{◌+◌, some, Duration, from_secs}
use pulumi_rs_kube_operator.Operator.Messages.{
  Priority, ReconcileTrigger, lock_recovery, failure_retry, retry, lock_retry,
}
use pulumi_rs_kube_operator.Operator.LockState.{
  LockAction, retry_after, force_unlock, clear, on_conflict, on_success,
}
use pulumi_rs_kube_operator.Operator.Events.{lock_conflicts, force_unlocks}
use pulumi_rs_kube_operator.Operator.Effects.{
  Env, M, read, perform, pure, requeue, metric, ◌>>=◌, ◌>>◌,
}
use pulumi_rs_kube_operator.Actors.State.{ActorState}

unfoldable pub schedule_requeue :
    Env → ActorState → Duration → Priority → ReconcileTrigger → M ActorState
schedule_requeue env st delay priority trigger = do
  now ← read env.instant
  perform (requeue delay priority trigger)
  pure (record st { next_reconcile_at = some (now + delay) })

-- The match on what `on_conflict` answered.
unfoldable pub recover_by : Env → ActorState → LockAction → M ActorState
unfolding schedule_requeue
recover_by env st force_unlock = do
  perform (metric force_unlocks)
  schedule_requeue env st (from_secs 2) lock_recovery lock_retry
recover_by env st (retry_after d) = schedule_requeue env st d failure_retry retry
recover_by env st clear = pure (record st { lock_state = on_success st.lock_state })

-- A lock conflict, in `handle_action` and in `handle_error` alike.
unfoldable pub recover_lock : Env → ActorState → M ActorState
unfolding recover_by
recover_lock env st = do
  perform (metric lock_conflicts)
  now ← read env.instant
  let (action, lock_state') = on_conflict now st.lock_state
  recover_by env (record st { lock_state = lock_state' }) action
