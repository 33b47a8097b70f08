-- ===== src/Tests/Components.antt =====
-- The lock state, the retry loop and the connection pool at concrete inputs.
use pulumi_rs_kube_operator.Base.{
  ℕ, zero, suc, none, some, [], ◌∷◌, ◌-◌, ◌+◌, text, Result, ok, err, from_secs, from_millis,
  as_millis, min, leb, length, ◌≡◌, refl, arith, if◌then◌else◌,
}
use pulumi_rs_kube_operator.Core.Lock.{Status, retry_on_lock}
use pulumi_rs_kube_operator.Base.{◌*◌}
use pulumi_rs_kube_operator.Core.Time.{parse_go_duration}
use pulumi_rs_kube_operator.Core.Time.RoundTrip.{parse_go_duration-print_duration, print_duration}
use pulumi_rs_kube_operator.Core.Lock.Attempts.{retry_on_lock-Finished, Finished}
use pulumi_rs_kube_operator.Operator.LockState.{on_conflict, on_success, force_unlock, retry_after}
use pulumi_rs_kube_operator.Operator.LockState.Conflicts.{
  after_conflicts, uncapped_ms, on_conflict-series,
}
use pulumi_rs_kube_operator.Operator.Connection.{Pool, write, find_free_slot, lend, lend_insert}
use pulumi_rs_kube_operator.Operator.Connection.Lending.{lend-Lent, Lent}
use pulumi_rs_kube_operator.Operator.Connection.Leak.{lend_insert-Leaked, Leaked, used}
use pulumi_rs_kube_operator.Actors.State.{default_state}

on_conflict-series_example :
    (on_conflict
      (from_secs 60)
      (after_conflicts (from_secs 0 ∷ from_secs 20 ∷ []) (on_success default_state.lock_state))).0
    ≡ (if leb default_state.lock_state.timeout (from_secs 60 - from_secs 0)
        then force_unlock
        else retry_after (
            from_millis (
              min
                (uncapped_ms (length (from_secs 20 ∷ []) + 2))
                (as_millis default_state.lock_state.timeout))))
on_conflict-series_example =
    on_conflict-series default_state.lock_state (from_secs 0) (from_secs 60) (from_secs 20 ∷ [])
      (omega arith)

-- A call that meets a lock once.
abbrev locked_once : ℕ → Result Status ℕ
locked_once zero = err (record { code = 13; status_message = text "the stack is currently locked" })
locked_once (suc n) = ok n

retry_on_lock-Finished_example :
    Finished (text "up") 3 locked_once (retry_on_lock (text "up") 3 locked_once)
retry_on_lock-Finished_example = retry_on_lock-Finished (text "up") 3 locked_once

abbrev two_slots : Pool ℕ
two_slots = record { entries = none ∷ none ∷ []; index = []; max_idle = from_secs 300 }

lend-Lent_example :
    Lent
      (from_secs 5)
      (text "a:50051")
      two_slots
      (lend (from_secs 5) (text "a:50051") (some 7) two_slots)
lend-Lent_example = lend-Lent (from_secs 5) (text "a:50051") (some 7) two_slots

first_free : find_free_slot two_slots.entries ≡ some 0
unfolding find_free_slot
first_free = refl

second_free : find_free_slot (write two_slots.entries 0 (used 7 (from_secs 5))) ≡ some 1
unfolding find_free_slot write
second_free = refl

lend_insert-Leaked_example :
    Leaked 7
      (from_secs 5)
      0
      (lend_insert
        (from_secs 6)
        (text "a:50051")
        8
        (lend_insert (from_secs 5) (text "a:50051") 7 two_slots).1).1
lend_insert-Leaked_example =
    lend_insert-Leaked (from_secs 5) (from_secs 6) (text "a:50051") 7 8 two_slots refl (omega arith)
      first_free second_free

parse_go_duration-print_duration_example :
    parse_go_duration (print_duration 1 30 5) ≡ from_secs (1 * 3600 + 30 * 60 + 5)
parse_go_duration-print_duration_example = parse_go_duration-print_duration 1 30 5 (omega arith)
