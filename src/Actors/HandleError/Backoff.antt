-- ===== src/Actors/HandleError/Backoff.antt =====
-- src/operator/actors/actor.rs, `handle_error`, with src/core/recovery.rs: the retry after an error.
use native.Mathlib.Nat.{pow-le-pow_right, one-le-pow}
use pulumi_rs_kube_operator.Base.{
  ℕ, ◌+◌, ◌*◌, ◌^◌, ◌≤◌, ◌<◌, min, some, ◌∷◌, ◌≡◌, refl, arith, from_millis, succ_u32,
  saturating_mul, saturating_pow,
}
use pulumi_rs_kube_operator.Errors.{
  OperatorError, permanent, PermanentError, permanent_reason, condition_reason,
}
use pulumi_rs_kube_operator.Core.Recovery.{retry_with_backoff, recovery_action}
use pulumi_rs_kube_operator.Operator.Messages.{failure_retry, retry}
use pulumi_rs_kube_operator.Operator.Effects.{Env, History, requeue, event, read, perform, pure}
use pulumi_rs_kube_operator.Operator.Events.{stalled_event}
use pulumi_rs_kube_operator.Actors.Requests.{record_event}
use pulumi_rs_kube_operator.Actors.State.{ActorState}
use pulumi_rs_kube_operator.Actors.Requeue.{schedule_requeue}
use pulumi_rs_kube_operator.Actors.HandleError.{delay_ms, handle_error, recover}

saturating_pow-min : (n : ℕ) → saturating_pow 2 (min n 20) ≡ 2 ^ min n 20
unfolding saturating_pow
saturating_pow-min n =
    let p : 2 ^ min n 20 ≤ 2 ^ 20 = pow-le-pow_right (omega arith) {j = 20} (omega arith) in
    omega arith

saturating_mul-pow : (a n : ℕ) → a ≤ 30000 → saturating_mul a (2 ^ min n 20) ≡ a * 2 ^ min n 20
unfolding saturating_mul
saturating_mul-pow a n h =
    let p : 2 ^ min n 20 ≤ 2 ^ 20 = pow-le-pow_right (omega arith) {j = 20} (omega arith) in
    let q : a * 2 ^ min n 20 ≤ 30000 * 2 ^ min n 20 = grind arith in omega arith

delay_ms-eq :
    (base_ms max_ms failures : ℕ)
    → base_ms ≤ 30000
    → delay_ms base_ms max_ms failures ≡ min (base_ms * 2 ^ min failures 20) max_ms
unfolding delay_ms
delay_ms-eq base_ms max_ms failures h =
    rw (saturating_pow-min failures, saturating_mul-pow base_ms failures h) refl

-- The bounds of the backoff for each error that is retried.
backoff_bounds :
    (e : OperatorError) {base_ms max_ms : ℕ}
    → recovery_action e ≡ retry_with_backoff base_ms max_ms
    → (1000 ≤ base_ms) × (base_ms ≤ 30000) × (base_ms * 2 ≤ max_ms) × (max_ms ≤ 300000)
unfolding recovery_action
backoff_bounds e h = ground arith

-- The delay before the retry that follows `failures` failures in a row.
abbrev pub backoff_ms : ℕ → ℕ → ℕ → ℕ
backoff_ms base_ms max_ms failures = min (base_ms * 2 ^ min failures 20) max_ms

pub record Retried (env : Env) (st : ActorState) (h : History) (base_ms max_ms : ℕ)
    (r : ActorState × History) : Type 0 where
  pub requeued :
      r.1.effects
      ≡ requeue (from_millis (backoff_ms base_ms max_ms (st.failure_count + 1))) failure_retry retry
        ∷ h.effects
  pub counted : r.0.failure_count ≡ st.failure_count + 1
  pub debounced :
      r.0.next_reconcile_at
      ≡ some (env.instant h + from_millis (backoff_ms base_ms max_ms (st.failure_count + 1)))
  pub at_least : 1000 ≤ backoff_ms base_ms max_ms (st.failure_count + 1)
  pub at_most : backoff_ms base_ms max_ms (st.failure_count + 1) ≤ 300000

backoff_ms_range :
    (base_ms max_ms n : ℕ)
    → 1000 ≤ base_ms
    → base_ms * 2 ≤ max_ms
    → max_ms ≤ 300000
    → (1000 ≤ backoff_ms base_ms max_ms n) × (backoff_ms base_ms max_ms n ≤ 300000)
backoff_ms_range base_ms max_ms n l m u =
    let one : 1 ≤ 2 ^ min n 20 = one-le-pow (min n 20) 2 (omega arith) in
    let grows : base_ms * 1 ≤ base_ms * 2 ^ min n 20 = grind arith in (omega arith, omega arith)

recover-requeues :
    (env : Env) (st : ActorState) (e : OperatorError) (base_ms max_ms : ℕ) (h : History)
    → st.failure_count < 4294967295
    → delay_ms base_ms max_ms (st.failure_count + 1)
      ≡ backoff_ms base_ms max_ms (st.failure_count + 1)
    → (1000 ≤ backoff_ms base_ms max_ms (st.failure_count + 1))
      × (backoff_ms base_ms max_ms (st.failure_count + 1) ≤ 300000)
    → Retried env st h base_ms max_ms (recover env st e (retry_with_backoff base_ms max_ms) h)
unfolding recover schedule_requeue read perform pure
recover-requeues env st e base_ms max_ms h c d b =
    let n : succ_u32 st.failure_count ≡ st.failure_count + 1 = omega arith in
    record {
      requeued = rw (n, d) refl;
      counted = n;
      debounced = rw (n, d) refl;
      at_least = b.0;
      at_most = b.1;
    }

-- An error that is to be retried leads to one delayed message, to one more counted failure, and to
-- a debounce until that message. The delay doubles with each failure up to the error's limit, and
-- lies between one second and five minutes.
pub handle_error-retries :
    (env : Env) (st : ActorState) (e : OperatorError) (h : History) {base_ms max_ms : ℕ}
    → recovery_action e ≡ retry_with_backoff base_ms max_ms
    → st.failure_count < 4294967295
    → Retried env st h base_ms max_ms (handle_error env st e h)
unfolding handle_error
handle_error-retries env st e h {base_ms} {max_ms} a c =
    let (l, k, m, u) = backoff_bounds e a in
    rw a (
      recover-requeues env st e base_ms max_ms h c
        (delay_ms-eq base_ms max_ms (st.failure_count + 1) k)
        (backoff_ms_range base_ms max_ms (st.failure_count + 1) l m u))

-- A permanent error stalls the stack: one event, no message to come back, the state as it was.
pub handle_error-permanent :
    (env : Env) (st : ActorState) (p : PermanentError) (h : History)
    → ((handle_error env st (permanent p) h).0 ≡ st)
      × ((handle_error env st (permanent p) h).1.effects
          ≡ event (stalled_event (permanent_reason p) (permanent p)) ∷ h.effects)
unfolding handle_error recover record_event perform pure recovery_action condition_reason
handle_error-permanent env st p h = (refl, refl)
