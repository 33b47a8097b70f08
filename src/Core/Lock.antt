-- ===== src/Core/Lock.antt =====
-- src/core/lock.rs: lock errors of the Pulumi backend, and the retry loop around a call.
pub mod Attempts
use pulumi_rs_kube_operator.Base.{
  ℕ, zero, suc, ◌+◌, ◌*◌, min, Bool, ◌||◌, true, false, Option, none, some, or_else, List, [], ◌∷◌,
  ◌++◌, Result, ok, err, decimal, if◌then◌else◌, Text, text, contains, Duration, from_secs,
}

unfoldable pub is_lock_error : Text → Bool
is_lock_error message =
    contains message (text "currently locked")
    || contains message (text "locked by")
    || contains message (text "lock held")
    || contains message (text "update conflict")

-- `tonic::Status`: its message, and the code, of which `unavailable` is one.
pub record Status : Type 0 where
  pub code : ℕ
  pub status_message : Text

abbrev pub unavailable : ℕ
unavailable = 14

unfoldable pub exhausted : Text → ℕ → Status
exhausted operation max_attempts = record {
  code = unavailable;
  status_message =
      operation
      ++ text " failed after "
      ++ decimal max_attempts
      ++ text " attempts due to lock contention";
}

-- The pause after the attempt with the given number.
abbrev pub lock_delay : ℕ → Duration
lock_delay attempt = from_secs (min ((attempt + 1) * 2) 20)

-- What the loop has come to: its result, and the pauses it made.
abbrev pub Retried : Type 0 → Type 0
Retried T = Result Status T × List Duration

module _ {T : Type 0} (operation : Text) (max_attempts : ℕ) (call : ℕ → Result Status T) where
  abbrev pub paused : Duration → Retried T → Retried T
  paused d (r, ds) = (r, d ∷ ds)

  -- The error that is returned once the attempts are used up.
  abbrev pub last_error : Option Status → Status
  last_error none = exhausted operation max_attempts
  last_error (some e) = e

  -- `remaining` attempts are left, and `attempt` is the number of the next one; `call n` is what
  -- the operation answers to the attempt with the number `n`.
  unfoldable pub retry_loop : (remaining attempt : ℕ) → Option Status → Retried T
  unfolding exhausted
  retry_loop zero attempt last_err = (err (last_error last_err), [])
  retry_loop (suc remaining) attempt last_err = elim (call attempt) [
    | ok resp ↦ (ok resp, [])
    | err e ↦
        if is_lock_error e.status_message
        then paused (lock_delay attempt) (retry_loop remaining (suc attempt) (some e))
        else (err e, [])
  ]

  unfoldable pub retry_on_lock : Retried T
  unfolding retry_loop
  retry_on_lock = retry_loop max_attempts 0 none
