-- ===== src/Operator/Metrics/Scraped.antt =====
-- src/operator/metrics.rs: what a scrape shows after a sequence of calls.
use pulumi_rs_kube_operator.Base.{
  ℕ, ◌+◌, ◌*◌, ◌%◌, List, [], ◌∷◌, text, u64_max, count, ◌≡◌, ◌==◌, refl, arith,
}
use pulumi_rs_kube_operator.Operator.Events.{
  reconciles, reconcile_errors, lock_conflicts, force_unlocks, active_actors_up, active_actors_down,
  mailbox_drops,
}
use pulumi_rs_kube_operator.Operator.Metrics.{
  MetricCall, move, set_pool_size, inc_pool_hits, inc_pool_misses, inc_events_emitted,
  inc_notifications_sent, inc_notifications_failed, Metrics, new_metrics, up, down, moved, called,
  registered,
}

-- The calls in their order, the last one first.
-- A number for each kind of call that the registry follows.
abbrev pub code : MetricCall → ℕ
code (move reconciles) = 0
code (move reconcile_errors) = 1
code (move active_actors_up) = 2
code (move active_actors_down) = 3
code (move lock_conflicts) = 4
code (move force_unlocks) = 5
code (move mailbox_drops) = 6
code inc_events_emitted = 7
code inc_notifications_sent = 8
code inc_notifications_failed = 9
code (set_pool_size size) = 10
code inc_pool_hits = 11
code inc_pool_misses = 12

-- How often a kind of call was made.
abbrev pub times : ℕ → List MetricCall → ℕ
times k calls = count (λ c. code c == k) calls

-- The counters after some calls, the last one first.
abbrev pub metrics_after : List MetricCall → Metrics
metrics_after [] = new_metrics
metrics_after (c ∷ cs) = called c (metrics_after cs)

abbrev pub wrapped : ℕ → ℕ
wrapped n = n % (u64_max + 1)

record Counted (cs : List MetricCall) (m : Metrics) : Type 0 where
  reconciles_shown : m.prom_reconciles ≡ wrapped (times 0 cs)
  errors_shown : m.prom_errors ≡ wrapped (times 1 cs)
  actors_shown : m.prom_actors ≡ wrapped (times 2 cs + u64_max * times 3 cs)
  conflicts_shown : m.prom_lock_conflicts ≡ wrapped (times 4 cs)
  unlocks_shown : m.prom_force_unlocks ≡ wrapped (times 5 cs)
  drops_shown : m.prom_mailbox_drops ≡ wrapped (times 6 cs)
  events_shown : m.prom_events_emitted ≡ wrapped (times 7 cs)
  sent_shown : m.prom_notifications_sent ≡ wrapped (times 8 cs)
  failed_shown : m.prom_notifications_failed ≡ wrapped (times 9 cs)

called-Counted :
    (c : MetricCall) (cs : List MetricCall) (m : Metrics)
    → Counted cs m
    → Counted (c ∷ cs) (called c m)
unfolding called moved up down
called-Counted (move reconciles) cs m h = ground arith
called-Counted (move reconcile_errors) cs m h = ground arith
called-Counted (move active_actors_up) cs m h = ground arith
called-Counted (move active_actors_down) cs m h = ground arith
called-Counted (move lock_conflicts) cs m h = ground arith
called-Counted (move force_unlocks) cs m h = ground arith
called-Counted (move mailbox_drops) cs m h = ground arith
called-Counted inc_events_emitted cs m h = ground arith
called-Counted inc_notifications_sent cs m h = ground arith
called-Counted inc_notifications_failed cs m h = ground arith
called-Counted (set_pool_size size) cs m h = ground arith
called-Counted inc_pool_hits cs m h = ground arith
called-Counted inc_pool_misses cs m h = ground arith

metrics_after-Counted : (cs : List MetricCall) → Counted cs (metrics_after cs)
metrics_after-Counted [] = omega arith
metrics_after-Counted (c ∷ cs) = called-Counted c cs (metrics_after cs) (metrics_after-Counted cs)

-- After any calls, a scrape shows how often each counted kind of call was made, on 64 bits, and as
-- the number of active actors the starts less the stops; the size and the use of the connection pool
-- are not shown.
pub registered-counts :
    (cs : List MetricCall)
    → registered (metrics_after cs)
      ≡ (text "pulumi_operator_reconciles_total", wrapped (times 0 cs))
        ∷ (text "pulumi_operator_reconcile_errors_total", wrapped (times 1 cs))
        ∷ (text "pulumi_operator_active_actors", wrapped (times 2 cs + u64_max * times 3 cs))
        ∷ (text "pulumi_operator_lock_conflicts_total", wrapped (times 4 cs))
        ∷ (text "pulumi_operator_force_unlocks_total", wrapped (times 5 cs))
        ∷ (text "pulumi_operator_mailbox_drops_total", wrapped (times 6 cs))
        ∷ (text "pulumi_operator_events_emitted_total", wrapped (times 7 cs))
        ∷ (text "pulumi_operator_notifications_sent_total", wrapped (times 8 cs))
        ∷ (text "pulumi_operator_notifications_failed_total", wrapped (times 9 cs))
        ∷ []
unfolding registered
registered-counts cs =
    let c = metrics_after-Counted cs in
    rw
      (
        c.reconciles_shown, c.errors_shown, c.actors_shown, c.conflicts_shown, c.unlocks_shown,
        c.drops_shown, c.events_shown, c.sent_shown, c.failed_shown,
      )
      refl
