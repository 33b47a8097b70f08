-- ===== src/Reconcile/Sync/InSync.antt =====
-- src/operator/reconcile/sync.rs, `is_synced`: what it decides.
use pulumi_rs_kube_operator.Base.{
  Bool, true, false, not, Option, some, none, is_some, or_else, Text, text, text_eq, text_eq→eq,
  option_text_eq→eq, eq→option_text_eq, int_eq→eq, eq→int_eq, arith, Instant, ◌≡◌, refl, ◌<◌,
  ltb→lt, lt→ltb, if_elim, unless_false, or_later, pass_test, true_later, ◌↔◌, inl, inr,
}
use mathlib.Core.Bool.{false≢true}
use pulumi_rs_kube_operator.Core.Time.{elapsed_since}
use pulumi_rs_kube_operator.Api.Meta.{annotation}
use pulumi_rs_kube_operator.Api.Conditions.{reconcile_request_ann}
use pulumi_rs_kube_operator.Api.Stack.{Stack, StackUpdateState}
use pulumi_rs_kube_operator.Reconcile.Sync.{
  last_update, generation, resync_freq, cooldown, synced_after_success, synced_after_failure,
  synced_by_state, synced_with, is_synced,
}

module _ (parse : Text → Option Instant) (now : Instant) (stack : Stack) (commit : Text) where
  -- Nothing is to be done for the last Update.
  pub data Settled (status : StackUpdateState) : Type 0 where
    succeeded_and_deleted :
        or_else status.state (text "") ≡ text "succeeded"
        → is_some stack.metadata.deletion_timestamp ≡ true
        → Settled status
    succeeded_for_commit :
        or_else status.state (text "") ≡ text "succeeded"
        → status.last_successful_commit ≡ some commit
        → stack.spec.continue_resync_on_commit_match ≡ false
        → Settled status
    succeeded_lately :
        or_else status.state (text "") ≡ text "succeeded"
        → status.last_successful_commit ≡ some commit
        → elapsed_since parse now status.last_resync_time < resync_freq stack
        → Settled status
    failed_lately :
        or_else status.state (text "") ≡ text "failed"
        → status.last_attempted_commit ≡ some commit
        → elapsed_since parse now status.last_resync_time < cooldown status.failures stack
        → Settled status

  -- The stack has a last Update, made for its generation and its reconcile request, and settled.
  pub record InSync : Type 0 where
    pub status : StackUpdateState
    pub is_last : last_update stack ≡ some status
    pub same_generation : status.generation ≡ generation stack
    pub same_request :
        status.reconcile_request ≡ annotation reconcile_request_ann stack.metadata.annotations
    pub settled : Settled status

  after_success-Settled :
      (status : StackUpdateState)
      → or_else status.state (text "") ≡ text "succeeded"
      → synced_after_success parse now stack status commit ≡ true
      → Settled status
  unfolding synced_after_success
  after_success-Settled status s e = elim (or_later (is_some stack.metadata.deletion_timestamp) e) [
    | inl d ↦ succeeded_and_deleted s d
    | inr e' ↦
        let (c, r) = unless_false _ e' in
        let same = option_text_eq→eq _ _ c in
        elim (or_later (not stack.spec.continue_resync_on_commit_match) r) [
          | inl n ↦ succeeded_for_commit s same (ground arith)
          | inr l ↦ succeeded_lately s same (ltb→lt _ _ l)
        ]
  ]

  after_failure-Settled :
      (status : StackUpdateState)
      → or_else status.state (text "") ≡ text "failed"
      → synced_after_failure parse now stack status commit ≡ true
      → Settled status
  unfolding synced_after_failure
  after_failure-Settled status s e =
      let (c, l) = unless_false _ e in failed_lately s (option_text_eq→eq _ _ c) (ltb→lt _ _ l)

  by_state-Settled :
      (status : StackUpdateState)
      → synced_by_state parse now stack status commit ≡ true
      → Settled status
  unfolding synced_by_state
  by_state-Settled status =
      if_elim {A = Bool} (λ b. b ≡ true → Settled status)
        (text_eq (or_else status.state (text "")) (text "succeeded"))
        (λ s. after_success-Settled status (text_eq→eq _ _ s))
        (λ _.
          if_elim {A = Bool} (λ b. b ≡ true → Settled status)
            (text_eq (or_else status.state (text "")) (text "failed"))
            (λ s. after_failure-Settled status (text_eq→eq _ _ s)) (λ _ e. absurd (false≢true e)))

  Settled-by_state :
      (status : StackUpdateState)
      → Settled status
      → synced_by_state parse now stack status commit ≡ true
  unfolding synced_by_state synced_after_success synced_after_failure text text_eq
  Settled-by_state status (succeeded_and_deleted s d) = rw s (rw d refl)
  Settled-by_state status (succeeded_for_commit s c n) = rw s (
      true_later (is_some stack.metadata.deletion_timestamp)
        (pass_test (eq→option_text_eq c) (rw n refl)))
  Settled-by_state status (succeeded_lately s c l) = rw s (
      true_later (is_some stack.metadata.deletion_timestamp) (
        pass_test (eq→option_text_eq c)
          (true_later (not stack.spec.continue_resync_on_commit_match) (lt→ltb _ _ l))))
  Settled-by_state status (failed_lately s c l) =
      rw s (pass_test (eq→option_text_eq c) (lt→ltb _ _ l))

  synced_with-InSync :
      (last : Option StackUpdateState)
      → last_update stack ≡ last
      → synced_with parse now stack last commit ≡ true
      → InSync
  unfolding synced_with
  synced_with-InSync none l e = absurd (false≢true e)
  synced_with-InSync (some status) l e =
      let (g, e1) = unless_false _ e in
      let (r, e2) = unless_false _ e1 in
      record {
        status = status;
        is_last = l;
        same_generation = int_eq→eq _ _ g;
        same_request = option_text_eq→eq _ _ r;
        settled = by_state-Settled status e2;
      }

  InSync-is_synced : InSync → is_synced parse now stack commit ≡ true
  unfolding is_synced synced_with
  InSync-is_synced s = rw s.is_last (
      pass_test (eq→int_eq s.same_generation)
        (pass_test (eq→option_text_eq s.same_request) (Settled-by_state s.status s.settled)))

  -- `is_synced` answers true exactly for a stack that is in sync: its last Update is of its generation
  -- and its reconcile request, and it succeeded for the commit, or succeeded while the stack is
  -- deleted, or failed for the commit within the cooldown; if the stack has
  -- continueResyncOnCommitMatch and is not deleted, a success must be younger than the resync
  -- frequency.
  pub is_synced_iff : is_synced parse now stack commit ≡ true ↔ InSync
  unfolding is_synced
  is_synced_iff = (synced_with-InSync (last_update stack) refl, InSync-is_synced)
