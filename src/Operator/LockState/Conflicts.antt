-- ===== src/Operator/LockState/Conflicts.antt =====
-- src/operator/lock.rs: what a series of lock conflicts leads to.
use native.Mathlib.Nat.{pow-le-pow_right}
use pulumi_rs_kube_operator.Base.{
  ℕ, ◌+◌, ◌-◌, ◌*◌, ◌^◌, ◌≤◌, min, some, or_else, List, [], ◌∷◌, length, ◌≡◌, refl, ap, ◌∙◌, arith,
  Instant, from_millis, as_millis, leb, succ_u32, saturating_mul, saturating_pow, if◌then◌else◌,
}
use pulumi_rs_kube_operator.Operator.LockState.{
  LockState, retry_after, force_unlock, backoff, conflicted, on_conflict, on_success,
}

-- The state after conflicts at the given times.
pub after_conflicts : List Instant → LockState → LockState
after_conflicts [] s = s
after_conflicts (t ∷ ts) s = after_conflicts ts (conflicted t s)

-- 10 seconds times 3 to the number of attempts, which counts to 20 at most.
abbrev pub uncapped_ms : ℕ → ℕ
uncapped_ms attempts = 10000 * 3 ^ min attempts 20

counted :
    (ts : List Instant) (s : LockState) {first : Instant}
    → s.first_seen ≡ some first
    → s.attempts + length ts ≤ 4294967295
    → (after_conflicts ts s).first_seen ≡ some first
      × ((after_conflicts ts s).attempts ≡ s.attempts + length ts)
      × ((after_conflicts ts s).timeout ≡ s.timeout)
unfolding after_conflicts conflicted
counted [] s f h = (f, omega arith, refl)
counted (t ∷ ts) s f h =
    let bumped : succ_u32 s.attempts ≡ s.attempts + 1 = omega arith in
    let seen : (conflicted t s).first_seen ≡ some _ = ap (λ o. some (or_else o t)) f in
    let (p, q, r) = counted ts (conflicted t s) seen (omega (arith, bumped)) in
    (p, omega (arith, q, bumped), r)

backoff-eq :
    (s : LockState) → backoff s ≡ from_millis (min (uncapped_ms s.attempts) (as_millis s.timeout))
unfolding backoff saturating_mul saturating_pow
backoff-eq s =
    let p : 3 ^ min s.attempts 20 ≤ 3 ^ 20 =
      pow-le-pow_right (omega arith) {j = 20} (omega arith) in
    omega arith

started : (s : LockState) (t : Instant) → (conflicted t (on_success s)).first_seen ≡ some t
unfolding conflicted on_success
started s t = refl

started_attempts : (s : LockState) (t : Instant) → (conflicted t (on_success s)).attempts ≡ 1
unfolding conflicted on_success
started_attempts s t = refl

success_timeout : (s : LockState) → (on_success s).timeout ≡ s.timeout
unfolding on_success
success_timeout s = refl

kept_timeout : (s : LockState) (now : Instant) → (conflicted now s).timeout ≡ s.timeout
unfolding conflicted
kept_timeout s now = refl

attempts_next :
    (s : LockState) (now : Instant) (n : ℕ)
    → s.attempts + 1 ≡ n
    → n ≤ 4294967295
    → (conflicted now s).attempts ≡ n
unfolding conflicted
attempts_next s now n e h = omega arith

-- After a success the lock state starts afresh. Conflicts follow at `t`, at the times `ts` and at
-- `now`. The last of them asks for a forced unlock exactly if the timeout has passed since `t`, and
-- otherwise for a retry after 10 seconds times three to the number of conflicts (20 at most),
-- capped at the timeout. The count of conflicts must fit 32 bits.
pub on_conflict-series :
    (s : LockState) (t now : Instant) (ts : List Instant)
    → length ts + 2 ≤ 4294967295
    → (on_conflict now (after_conflicts (t ∷ ts) (on_success s))).0 ≡ (
        if leb s.timeout (now - t)
        then force_unlock
        else retry_after (from_millis (min (uncapped_ms (length ts + 2)) (as_millis s.timeout))))
unfolding on_conflict after_conflicts
on_conflict-series s t now ts h =
    let first = conflicted t (on_success s) in
    let (p, q, r) =
      counted ts first {first = t} (started s t) (omega (arith, started_attempts s t)) in
    let last = conflicted now (after_conflicts ts first) in
    let n : last.attempts ≡ length ts + 2 =
      attempts_next _ now _ (omega (arith, q, started_attempts s t)) h in
    let from_start = kept_timeout (on_success s) t ∙ success_timeout s in
    let kept : last.timeout ≡ s.timeout =
      kept_timeout (after_conflicts ts first) now ∙ r ∙ from_start in
    rw (backoff-eq last, n, kept, p, r ∙ from_start) refl
