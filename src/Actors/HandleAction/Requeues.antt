-- ===== src/Actors/HandleAction/Requeues.antt =====
-- src/operator/actors/actor.rs, `handle_action`: which actions bring the actor back by themselves.
use pulumi_rs_kube_operator.Base.{
  ℕ, suc, Bool, true, false, some, ◌+◌, ◌∷◌, ◌≡◌, refl, arith, ◌∙◌, ap, ◌≢◌, Text, Duration,
  Instant, count, if◌then◌else◌, if_elim,
}
use pulumi_rs_kube_operator.Api.Stack.{Stack, GracePeriodAction, delete_kustomization}
use pulumi_rs_kube_operator.Operator.Messages.{NameKey, Priority, ReconcileTrigger}
use pulumi_rs_kube_operator.Operator.LockState.{
  LockState, LockAction, retry_after, force_unlock, clear, on_conflict,
}
use pulumi_rs_kube_operator.Operator.Effects.{
  Env, M, History, Effect, requeue, read, perform, request, pure,
}
use pulumi_rs_kube_operator.Reconcile.Action.{
  ReconcileAction, add_finalizer, done, remove_finalizer, synced, wait_for_workspace,
  wait_for_update, update_created, destroy_started, destroy_failed, remove_finalizer_after_destroy,
  project_missing, project_reinstated, project_ttl_expired, update_succeeded, update_failed,
}
use pulumi_rs_kube_operator.Core.Lock.{is_lock_error}
use pulumi_rs_kube_operator.Actors.State.{ActorState}
use pulumi_rs_kube_operator.Actors.Requeue.{schedule_requeue, recover_by, recover_lock}
use pulumi_rs_kube_operator.Actors.Requests.{
  attempt, record_event, reclaim_workspace, delete_stack_workspace, remove_stack_finalizer,
  remove_update_finalizer, delete_owning_kustomization,
}
use pulumi_rs_kube_operator.Actors.Updates.{
  on_update_created, on_update_succeeded, on_update_failed, retry_failed,
}
use pulumi_rs_kube_operator.Actors.Destroys.{on_destroyed, on_destroy_started, on_destroy_failed}
use pulumi_rs_kube_operator.Actors.Projects.{
  on_project_missing, on_project_reinstated, on_project_ttl_expired, expire,
}
use pulumi_rs_kube_operator.Actors.HandleAction.{handle_action}

abbrev pub is_requeue : Effect → Bool
is_requeue (requeue d p t) = true
is_requeue _ = false

-- The delayed messages of a history.
abbrev pub requeues : History → ℕ
requeues h = count is_requeue h.effects

-- The actions after which the actor comes back by itself.
abbrev pub comes_back : ReconcileAction → Bool
comes_back (wait_for_update name) = true
comes_back wait_for_workspace = true
comes_back (update_failed name message) = true
comes_back (destroy_failed name failures) = true
comes_back (project_missing id) = true
comes_back project_reinstated = true
comes_back _ = false

-- The last effect is a delayed message, and the debounce lasts until it is due.
pub record Scheduled (env : Env) (r : ActorState × History) : Type 0 where
  pub start : History
  pub delay : Duration
  pub priority : Priority
  pub trigger : ReconcileTrigger
  pub sent : r.1.effects ≡ requeue delay priority trigger ∷ start.effects
  pub until : r.0.next_reconcile_at ≡ some (env.instant start + delay)

abbrev pub Debounced : Env → Bool → ActorState → ActorState × History → Type 0
Debounced env true st r = Scheduled env r
Debounced env false st r = r.0.next_reconcile_at ≡ st.next_reconcile_at

-- One more delayed message, and a debounce that lasts until it is due, or neither.
pub record Requeued (env : Env) (expected : Bool) (st : ActorState) (h : History)
    (r : ActorState × History) : Type 0 where
  pub added : requeues r.1 ≡ (if expected then suc (requeues h) else requeues h)
  pub debounced : Debounced env expected st r

reclaim-requeues :
    (env : Env) (key : NameKey) (stack : Stack) (h : History)
    → requeues (reclaim_workspace env key stack h).1 ≡ requeues h
unfolding reclaim_workspace delete_stack_workspace request pure
reclaim-requeues env key stack h = ground arith

owning-requeues :
    (env : Env) (key : NameKey) (stack : Stack) (h : History)
    → requeues (delete_owning_kustomization env key stack h).1 ≡ requeues h
unfolding delete_owning_kustomization request pure
owning-requeues env key stack h = ground arith

finalizer-requeues :
    (env : Env) (key : NameKey) (stack : Stack) (h : History)
    → requeues (remove_stack_finalizer env key stack h).1 ≡ requeues h
unfolding remove_stack_finalizer request pure
finalizer-requeues env key stack h = refl

expire-requeues :
    (env : Env) (key : NameKey) (stack : Stack) (a : GracePeriodAction) (h : History)
    → requeues (expire env key stack a h).1 ≡ requeues h
unfolding expire
expire-requeues env key stack delete_kustomization h = owning-requeues env key stack h
expire-requeues env key stack GracePeriodAction.remove_finalizer h =
    finalizer-requeues env key stack _ ∙ reclaim-requeues env key stack h

schedule-Requeued :
    (env : Env) (st st0 : ActorState) (d : Duration) (p : Priority) (t : ReconcileTrigger)
    (h h0 : History)
    → requeues h0 ≡ requeues h
    → Requeued env true st h (schedule_requeue env st0 d p t h0)
unfolding schedule_requeue read perform pure
schedule-Requeued env st st0 d p t h h0 e = record {
  added = ap suc e;
  debounced = record {
    start = h0;
    delay = d;
    priority = p;
    trigger = t;
    sent = refl;
    until = refl;
  };
}

recover_by-Requeued :
    (env : Env) (st st0 : ActorState) (a : LockAction) (h h0 : History)
    → a ≢ clear
    → requeues h0 ≡ requeues h
    → Requeued env true st h (recover_by env st0 a h0)
unfolding recover_by perform
recover_by-Requeued env st st0 force_unlock h h0 n e = schedule-Requeued env st st0 _ _ _ h _ e
recover_by-Requeued env st st0 (retry_after d) h h0 n e = schedule-Requeued env st st0 _ _ _ h _ e
recover_by-Requeued env st st0 clear h h0 n e = absurd (n refl)

on_conflict-retries : (now : Instant) (s : LockState) → (on_conflict now s).0 ≢ clear
unfolding on_conflict
on_conflict-retries now s = ground arith

recover_lock-Requeued :
    (env : Env) (st : ActorState) (h h0 : History) (st0 : ActorState)
    → requeues h0 ≡ requeues h
    → Requeued env true st h (recover_lock env st0 h0)
unfolding recover_lock read perform
recover_lock-Requeued env st h h0 st0 e =
    recover_by-Requeued env st _ _ h _ (on_conflict-retries _ st0.lock_state) e

retry_failed-Requeued :
    (env : Env) (stack : Stack) (st st0 : ActorState) (message : Text) (h h0 : History)
    → requeues h0 ≡ requeues h
    → Requeued env true st h (retry_failed env stack st0 message h0)
unfolding retry_failed
retry_failed-Requeued env stack st st0 message h h0 e =
    if_elim {A = M ActorState} (λ m. Requeued env true st h (m h0)) (is_lock_error message)
      (λ _. recover_lock-Requeued env st h h0 st0 e)
      (λ _. schedule-Requeued env st st0 _ _ _ h h0 e)

-- After wait_for_update, wait_for_workspace, update_failed, destroy_failed, project_missing and
-- project_reinstated, exactly one delayed message is sent, as the last effect, and the debounce lasts
-- until it is due; after every other action no message is sent and the debounce is what it was.
pub handle_action-Requeued :
    (env : Env) (key : NameKey) (stack : Stack) (st : ActorState) (action : ReconcileAction)
    (h : History)
    → Requeued env (comes_back action) st h (handle_action env key stack st action h)
unfolding handle_action on_update_created on_update_succeeded on_update_failed on_destroyed
    on_destroy_started on_destroy_failed on_project_missing on_project_reinstated
    on_project_ttl_expired attempt record_event remove_update_finalizer request read perform pure
handle_action-Requeued env key stack st add_finalizer h = record { added = refl; debounced = refl }
handle_action-Requeued env key stack st remove_finalizer h = record {
  added = finalizer-requeues env key stack h;
  debounced = refl;
}
handle_action-Requeued env key stack st remove_finalizer_after_destroy h = record {
  added = finalizer-requeues env key stack _ ∙ reclaim-requeues env key stack _;
  debounced = refl;
}
handle_action-Requeued env key stack st (update_created name) h = record {
  added = refl;
  debounced = refl;
}
handle_action-Requeued env key stack st (update_succeeded name permalink outputs) h = record {
  added = reclaim-requeues env key stack _;
  debounced = refl;
}
handle_action-Requeued env key stack st (update_failed name message) h =
    retry_failed-Requeued env stack st _ message h _ refl
handle_action-Requeued env key stack st (destroy_started name) h = record {
  added = refl;
  debounced = refl;
}
handle_action-Requeued env key stack st (destroy_failed name failures) h =
    schedule-Requeued env st _ _ _ _ h _ refl
handle_action-Requeued env key stack st (wait_for_update name) h =
    schedule-Requeued env st _ _ _ _ h _ refl
handle_action-Requeued env key stack st wait_for_workspace h =
    schedule-Requeued env st _ _ _ _ h _ refl
handle_action-Requeued env key stack st (project_missing id) h =
    schedule-Requeued env st _ _ _ _ h _ refl
handle_action-Requeued env key stack st project_reinstated h =
    schedule-Requeued env st _ _ _ _ h _ refl
handle_action-Requeued env key stack st project_ttl_expired h = record {
  added = expire-requeues env key stack _ _;
  debounced = refl;
}
handle_action-Requeued env key stack st synced h = record { added = refl; debounced = refl }
handle_action-Requeued env key stack st done h = record { added = refl; debounced = refl }
