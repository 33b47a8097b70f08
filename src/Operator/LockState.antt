-- ===== src/Operator/LockState.antt =====
-- src/operator/lock.rs: the lock state of one actor. `now` is the reading of the clock that
-- `on_conflict` takes.
pub mod Conflicts
use pulumi_rs_kube_operator.Base.{
  ℕ, ◌-◌, min, Option, none, some, or_else, Instant, Duration, from_millis, as_millis, succ_u32,
  saturating_mul, saturating_pow, leb, if◌then◌else◌,
}

pub record LockState : Type 0 where
  pub first_seen : Option Instant
  pub timeout : Duration
  pub attempts : ℕ

pub data LockAction : Type 0 where
  retry_after : (delay : Duration) → LockAction
  force_unlock clear : LockAction

pub new : Duration → LockState
new timeout = record { first_seen = none; timeout = timeout; attempts = 0 }

-- 10s * 3^attempts, with the exponent at most 20, capped at the timeout.
unfoldable pub backoff : LockState → Duration
backoff s =
    from_millis
      (min (saturating_mul 10000 (saturating_pow 3 (min s.attempts 20))) (as_millis s.timeout))

-- The state that `on_conflict` leaves.
unfoldable pub conflicted : Instant → LockState → LockState
conflicted now s = record s {
  first_seen = some (or_else s.first_seen now);
  attempts = succ_u32 s.attempts;
}

unfoldable pub on_conflict : Instant → LockState → LockAction × LockState
on_conflict now s =
    let s' = conflicted now s in
    (
      if leb s.timeout (now - or_else s.first_seen now)
          then force_unlock
          else retry_after (backoff s'),
      s',
    )

unfoldable pub on_success : LockState → LockState
on_success s = record s { first_seen = none; attempts = 0 }

unfoldable pub set_timeout : Duration → LockState → LockState
set_timeout timeout s = record s { timeout = timeout }
