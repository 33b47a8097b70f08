-- ===== src/Core/Lock/Attempts.antt =====
-- src/core/lock.rs, `retry_on_lock`: the calls it makes and the pauses between them.
use pulumi_rs_kube_operator.Base.{
  ℕ, zero, suc, ◌+◌, ◌*◌, ◌≤◌, true, false, Option, none, some, List, [], ◌∷◌, Text, Result, ok,
  err, Result-cases, Bool-cases, length, Duration, ◌≡◌, arith, inl, inr,
}
use pulumi_rs_kube_operator.Core.Lock.{
  is_lock_error, Status, lock_delay, Retried, last_error, retry_loop, retry_on_lock,
}

-- The time spent in pauses.
abbrev pub total : List Duration → Duration
total [] = 0
total (d ∷ ds) = d + total ds

module _ {T : Type 0} (operation : Text) (max_attempts : ℕ) (call : ℕ → Result Status T) where
  -- The attempt with the number `n` met a lock.
  pub record Locked (n : ℕ) (e : Status) : Type 0 where
    pub answered : call n ≡ err e
    pub is_lock : is_lock_error e.status_message ≡ true

  -- The run from the attempt with the number `n`, when `k` are left and the error is `last`.
  pub data Run : (k n : ℕ) → Option Status → Result Status T → List Duration → Type 0 where
    exhausted_run :
        {n : ℕ} {last : Option Status}
        → Run 0 n last (err (last_error operation max_attempts call last)) []
    success :
        {k n : ℕ} {last : Option Status} {v : T} → call n ≡ ok v → Run (suc k) n last (ok v) []
    failure :
        {k n : ℕ} {last : Option Status} {e : Status}
        → call n ≡ err e
        → is_lock_error e.status_message ≡ false
        → Run (suc k) n last (err e) []
    locked :
        {k n : ℕ} {last : Option Status} {e : Status} {r : Result Status T} {ds : List Duration}
        → Locked n e
        → Run k (suc n) (some e) r ds
        → Run (suc k) n last r (lock_delay n ∷ ds)

  retry_loop-Run :
      (k n : ℕ) (last : Option Status)
      → let r = retry_loop operation max_attempts call k n last in Run k n last r.0 r.1
  unfolding retry_loop
  retry_loop-Run zero n last = exhausted_run
  retry_loop-Run (suc k) n last = elim (Result-cases (call n)) [
    | inl (v, a) ↦ rw (retry_loop, a) (success a)
    | inr (e, a) ↦ elim (Bool-cases (is_lock_error e.status_message)) [
      | inl l ↦
          rw (retry_loop, a, l)
            (locked (record { answered = a; is_lock = l }) (retry_loop-Run k (suc n) (some e)))
      | inr l ↦ rw (retry_loop, a, l) (failure a l)
    ]
  ]

  Run-total :
      {k n : ℕ} {last : Option Status} {r : Result Status T} {ds : List Duration}
      → Run k n last r ds
      → (length ds ≤ k) × (total ds ≤ k * 20000000000)
  Run-total exhausted_run = (omega arith, omega arith)
  Run-total (success a) = (omega arith, omega arith)
  Run-total (failure a l) = (omega arith, omega arith)
  Run-total (locked l r) = let (a, b) = Run-total r in (omega arith, omega arith)

  -- What the loop came to: its run, and the bounds of the pauses.
  pub record Finished (r : Retried T) : Type 0 where
    pub run : Run max_attempts 0 none r.0 r.1
    pub pauses : length r.1 ≤ max_attempts
    pub time : total r.1 ≤ max_attempts * 20000000000

  -- The loop calls the operation until an answer is no lock error, and returns that answer, or the
  -- last lock error once the attempts are used up. It pauses after each lock error, and for at most
  -- twenty seconds for each attempt in all.
  pub retry_on_lock-Finished : Finished (retry_on_lock operation max_attempts call)
  unfolding retry_on_lock
  retry_on_lock-Finished =
      let r = retry_loop-Run max_attempts 0 none in
      let (p, t) = Run-total r in record { run = r; pauses = p; time = t }
