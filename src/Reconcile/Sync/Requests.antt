-- ===== src/Reconcile/Sync/Requests.antt =====
-- src/operator/reconcile/sync.rs and the status that src/operator/actors/actor.rs writes after a
-- successful Update: stacks with a reconcile request.
use pulumi_rs_kube_operator.Base.{
  Bool, false, not, Option, some, Text, Instant, ◌≡◌, refl, if_elim, option_text_eq, int_eq,
}
use pulumi_rs_kube_operator.Api.Meta.{annotation}
use pulumi_rs_kube_operator.Api.Conditions.{reconcile_request_ann}
use pulumi_rs_kube_operator.Api.Stack.{Stack}
use pulumi_rs_kube_operator.Reconcile.Sync.{last_update, generation, is_synced, synced_with}
use pulumi_rs_kube_operator.Actors.State.{ActorState}
use pulumi_rs_kube_operator.Actors.Updates.{succeeded_update}

-- The status that is written after a successful Update does not name the reconcile request, so a
-- stack that carries a reconcile request is never in sync with that status, whatever the commit.
pub is_synced-requested :
    (parse : Text → Option Instant) (now : Instant) (before stack : Stack) (st : ActorState)
    (written name : Text) (permalink : Option Text) (request commit : Text)
    → annotation reconcile_request_ann stack.metadata.annotations ≡ some request
    → last_update stack ≡ some (succeeded_update before st written name permalink)
    → is_synced parse now stack commit ≡ false
unfolding is_synced synced_with succeeded_update option_text_eq
is_synced-requested parse now before stack st written name permalink request commit a l =
    rw (l, a)
      (if_elim {A = Bool} (λ b. b ≡ false) (not (int_eq (generation before) (generation stack)))
        (λ _. refl) (λ _. refl))
