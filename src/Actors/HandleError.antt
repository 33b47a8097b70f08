-- ===== src/Actors/HandleError.antt =====
-- src/operator/actors/actor.rs, `handle_error`: the recovery from an error of the pipeline.
pub mod Backoff
use pulumi_rs_kube_operator.Base.{ℕ, min, from_millis, succ_u32, saturating_mul, saturating_pow}
use pulumi_rs_kube_operator.Errors.{OperatorError, condition_reason}
use pulumi_rs_kube_operator.Core.Recovery.{
  RecoveryAction, retry_with_backoff, stall, force_unlock_and_retry, recovery_action,
}
use pulumi_rs_kube_operator.Operator.Messages.{failure_retry, retry}
use pulumi_rs_kube_operator.Operator.Events.{stalled_event}
use pulumi_rs_kube_operator.Operator.Effects.{Env, M, pure, ◌>>=◌, ◌>>◌}
use pulumi_rs_kube_operator.Actors.State.{ActorState}
use pulumi_rs_kube_operator.Actors.Requeue.{schedule_requeue, recover_lock}
use pulumi_rs_kube_operator.Actors.Requests.{record_event}
use pulumi_rs_kube_operator.Actors.Updates.{count_failure}

-- base * 2^failures, with the exponent at most 20, capped.
unfoldable pub delay_ms : ℕ → ℕ → ℕ → ℕ
delay_ms base_ms max_ms failures =
    min (saturating_mul base_ms (saturating_pow 2 (min failures 20))) max_ms

unfoldable pub recover : Env → ActorState → OperatorError → RecoveryAction → M ActorState
unfolding delay_ms
recover env st e (retry_with_backoff base_ms max_ms) =
    schedule_requeue env (count_failure st)
      (from_millis (delay_ms base_ms max_ms (succ_u32 st.failure_count))) failure_retry retry
recover env st e stall = do record_event (stalled_event (condition_reason e) e); pure st
recover env st e force_unlock_and_retry = recover_lock env st

unfoldable pub handle_error : Env → ActorState → OperatorError → M ActorState
unfolding recover
handle_error env st e = recover env st e (recovery_action e)
