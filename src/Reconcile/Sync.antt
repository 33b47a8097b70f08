-- ===== src/Reconcile/Sync.antt =====
-- src/operator/reconcile/sync.rs: whether a stack is in sync, and the cooldown after failures.
pub mod Cooldown
pub mod Requests
pub mod InSync
use pulumi_rs_kube_operator.Base.{
  ℕ, zero, suc, min, Bool, true, false, not, Option, none, some, or_else, and_then, is_some, Text,
  text, text_eq, option_text_eq, ℤ, pos, pos_part, is_positive, int_eq, Duration, Instant,
  from_secs, saturating_mul, ltb, if◌then◌else◌,
}
use pulumi_rs_kube_operator.Core.Time.{elapsed_since}
use pulumi_rs_kube_operator.Api.Meta.{annotation}
use pulumi_rs_kube_operator.Api.Conditions.{reconcile_request_ann}
use pulumi_rs_kube_operator.Api.Stack.{Stack, StackUpdateState}

-- Resync frequency from the spec, or 60 seconds.
unfoldable pub resync_freq : Stack → Duration
resync_freq stack =
    if is_positive stack.spec.resync_frequency_seconds
    then from_secs (pos_part stack.spec.resync_frequency_seconds)
    else from_secs 60

-- `for _ in 0..n { delay = delay.saturating_mul(3) }`
unfoldable pub triple_times : ℕ → ℕ → ℕ
triple_times zero delay = delay
triple_times (suc n) delay = triple_times n (saturating_mul delay 3)

unfoldable pub cap_secs : Stack → ℕ
cap_secs stack =
    if is_positive stack.spec.retry_max_backoff_duration_seconds
    then pos_part stack.spec.retry_max_backoff_duration_seconds
    else 86400

-- 10s * 3^failures with the exponent at most 30, capped; no cooldown without failures.
unfoldable pub cooldown : ℤ → Stack → Duration
unfolding cap_secs triple_times
cooldown failures stack =
    if is_positive failures
    then from_secs (min (triple_times (min (pos_part failures) 30) 10) (cap_secs stack))
    else 0

unfoldable pub last_update : Stack → Option StackUpdateState
last_update stack = and_then stack.status (λ s. s.last_update)

abbrev pub generation : Stack → ℤ
generation stack = or_else stack.metadata.generation (pos 0)

module _ (parse : Text → Option Instant) (now : Instant) where
  -- The branch for state "succeeded".
  unfoldable pub synced_after_success : Stack → StackUpdateState → Text → Bool
  unfolding resync_freq
  synced_after_success stack status current_commit =
      if is_some stack.metadata.deletion_timestamp
      then true
      else if not (option_text_eq status.last_successful_commit (some current_commit))
      then false
      else if not stack.spec.continue_resync_on_commit_match
      then true
      else ltb (elapsed_since parse now status.last_resync_time) (resync_freq stack)

  -- The branch for state "failed": inside the cooldown the stack counts as synced.
  unfoldable pub synced_after_failure : Stack → StackUpdateState → Text → Bool
  synced_after_failure stack status current_commit =
      if not (option_text_eq status.last_attempted_commit (some current_commit))
      then false
      else ltb (elapsed_since parse now status.last_resync_time) (cooldown status.failures stack)

  unfoldable pub synced_by_state : Stack → StackUpdateState → Text → Bool
  unfolding synced_after_success synced_after_failure
  synced_by_state stack status current_commit =
      if text_eq (or_else status.state (text "")) (text "succeeded")
      then synced_after_success stack status current_commit
      else if text_eq (or_else status.state (text "")) (text "failed")
      then synced_after_failure stack status current_commit
      else false

  unfoldable pub synced_with : Stack → Option StackUpdateState → Text → Bool
  unfolding synced_by_state
  synced_with stack none current_commit = false
  synced_with stack (some status) current_commit =
      if not (int_eq status.generation (generation stack))
      then false
      else if not (
          option_text_eq status.reconcile_request
            (annotation reconcile_request_ann stack.metadata.annotations))
      then false
      else synced_by_state stack status current_commit

  unfoldable pub is_synced : Stack → Text → Bool
  unfolding synced_with last_update
  is_synced stack current_commit = synced_with stack (last_update stack) current_commit
