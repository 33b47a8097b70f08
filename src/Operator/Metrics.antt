-- ===== src/Operator/Metrics.antt =====
-- src/operator/metrics.rs: the counters of the operator, and what a scrape shows of them. The counters
-- of the registry wrap as the atomic ones do; the gauge is an `i64`, kept as its bit pattern.
pub mod Scraped
use pulumi_rs_kube_operator.Base.{
  ℕ, ◌+◌, ◌-◌, ◌%◌, List, [], ◌∷◌, Text, text, u64_max, text_eq, if◌then◌else◌,
}
use pulumi_rs_kube_operator.Operator.Events.{
  Metric, reconciles, reconcile_errors, lock_conflicts, force_unlocks, active_actors_up,
  active_actors_down, mailbox_drops,
}
use pulumi_rs_kube_operator.Operator.Health.{not_found}
use pulumi_rs_kube_operator.Controllers.FileServer.{Bytes, HttpResponse}

-- The functions of `Metrics` that change it.
pub data MetricCall : Type 0 where
  move : Metric → MetricCall
  set_pool_size : (size : ℕ) → MetricCall
  inc_pool_hits inc_pool_misses inc_events_emitted : MetricCall
  inc_notifications_sent inc_notifications_failed : MetricCall

pub record Metrics : Type 0 where
  pub reconciles_total : ℕ
  pub reconcile_errors_total : ℕ
  pub active_actors : ℕ
  pub lock_conflicts_total : ℕ
  pub force_unlocks_total : ℕ
  pub connection_pool_size : ℕ
  pub connection_pool_hits : ℕ
  pub connection_pool_misses : ℕ
  pub mailbox_drops_total : ℕ
  pub events_emitted : ℕ
  pub notifications_sent : ℕ
  pub notifications_failed : ℕ
  pub prom_reconciles : ℕ
  pub prom_errors : ℕ
  pub prom_actors : ℕ
  pub prom_lock_conflicts : ℕ
  pub prom_force_unlocks : ℕ
  pub prom_mailbox_drops : ℕ
  pub prom_events_emitted : ℕ
  pub prom_notifications_sent : ℕ
  pub prom_notifications_failed : ℕ

abbrev pub new_metrics : Metrics
new_metrics = record {
  reconciles_total = 0;
  reconcile_errors_total = 0;
  active_actors = 0;
  lock_conflicts_total = 0;
  force_unlocks_total = 0;
  connection_pool_size = 0;
  connection_pool_hits = 0;
  connection_pool_misses = 0;
  mailbox_drops_total = 0;
  events_emitted = 0;
  notifications_sent = 0;
  notifications_failed = 0;
  prom_reconciles = 0;
  prom_errors = 0;
  prom_actors = 0;
  prom_lock_conflicts = 0;
  prom_force_unlocks = 0;
  prom_mailbox_drops = 0;
  prom_events_emitted = 0;
  prom_notifications_sent = 0;
  prom_notifications_failed = 0;
}

-- `fetch_add(1)` and `fetch_sub(1)` on 64 bits
unfoldable pub up : ℕ → ℕ
up n = (n + 1) % (u64_max + 1)

unfoldable pub down : ℕ → ℕ
down n = (n + u64_max) % (u64_max + 1)

unfoldable pub moved : Metric → Metrics → Metrics
unfolding up down
moved reconciles m = record m {
  reconciles_total = up m.reconciles_total;
  prom_reconciles = up m.prom_reconciles;
}
moved reconcile_errors m = record m {
  reconcile_errors_total = up m.reconcile_errors_total;
  prom_errors = up m.prom_errors;
}
moved active_actors_up m = record m {
  active_actors = up m.active_actors;
  prom_actors = up m.prom_actors;
}
moved active_actors_down m = record m {
  active_actors = down m.active_actors;
  prom_actors = down m.prom_actors;
}
moved lock_conflicts m = record m {
  lock_conflicts_total = up m.lock_conflicts_total;
  prom_lock_conflicts = up m.prom_lock_conflicts;
}
moved force_unlocks m = record m {
  force_unlocks_total = up m.force_unlocks_total;
  prom_force_unlocks = up m.prom_force_unlocks;
}
moved mailbox_drops m = record m {
  mailbox_drops_total = up m.mailbox_drops_total;
  prom_mailbox_drops = up m.prom_mailbox_drops;
}

unfoldable pub called : MetricCall → Metrics → Metrics
unfolding moved up
called (move metric) m = moved metric m
called (set_pool_size size) m = record m { connection_pool_size = size }
called inc_pool_hits m = record m { connection_pool_hits = up m.connection_pool_hits }
called inc_pool_misses m = record m { connection_pool_misses = up m.connection_pool_misses }
called inc_events_emitted m = record m {
  events_emitted = up m.events_emitted;
  prom_events_emitted = up m.prom_events_emitted;
}
called inc_notifications_sent m = record m {
  notifications_sent = up m.notifications_sent;
  prom_notifications_sent = up m.prom_notifications_sent;
}
called inc_notifications_failed m = record m {
  notifications_failed = up m.notifications_failed;
  prom_notifications_failed = up m.prom_notifications_failed;
}

-- The names that are registered, with what a scrape reads for them.
unfoldable pub registered : Metrics → List (Text × ℕ)
registered m =
    (text "pulumi_operator_reconciles_total", m.prom_reconciles)
    ∷ (text "pulumi_operator_reconcile_errors_total", m.prom_errors)
    ∷ (text "pulumi_operator_active_actors", m.prom_actors)
    ∷ (text "pulumi_operator_lock_conflicts_total", m.prom_lock_conflicts)
    ∷ (text "pulumi_operator_force_unlocks_total", m.prom_force_unlocks)
    ∷ (text "pulumi_operator_mailbox_drops_total", m.prom_mailbox_drops)
    ∷ (text "pulumi_operator_events_emitted_total", m.prom_events_emitted)
    ∷ (text "pulumi_operator_notifications_sent_total", m.prom_notifications_sent)
    ∷ (text "pulumi_operator_notifications_failed_total", m.prom_notifications_failed)
    ∷ []

-- `encode` is the text format of the library.
unfoldable pub handle_metrics :
    (encode : List (Text × ℕ) → Bytes) → (path : Text) → Metrics → HttpResponse
unfolding registered
handle_metrics encode path m =
    if text_eq path (text "/metrics")
    then record { status = 200; body = encode (registered m) }
    else not_found
