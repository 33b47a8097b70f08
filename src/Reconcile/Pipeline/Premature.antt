-- ===== src/Reconcile/Pipeline/Premature.antt =====
-- src/operator/reconcile/pipeline.rs, `handle_destroy`: any Update that is current when a stack is
-- deleted counts as its destroy run.
use pulumi_rs_kube_operator.Base.{Option, none, some, ok, Text, ◌≡◌, arith}
use pulumi_rs_kube_operator.Api.Stack.{Stack}
use pulumi_rs_kube_operator.Api.Update.{Update}
use pulumi_rs_kube_operator.Operator.Messages.{NameKey}
use pulumi_rs_kube_operator.Operator.Finalizers.{stack_finalizer_action, run_destroy}
use pulumi_rs_kube_operator.Operator.Effects.{Env, History}
use pulumi_rs_kube_operator.Operator.Fallible.{continue, return}
use pulumi_rs_kube_operator.Reconcile.Action.{remove_finalizer_after_destroy}
use pulumi_rs_kube_operator.Reconcile.CheckUpdate.{succeeded, check_update}
use pulumi_rs_kube_operator.Reconcile.CheckUpdate.Verdict.{
  Completed, check_update-effects, check_update-Completed,
}
use pulumi_rs_kube_operator.Reconcile.Destroy.{
  handle_destroy, check_destroy, check_current, destroy_verdict, current_name,
}
use pulumi_rs_kube_operator.Reconcile.Pipeline.{run_pipeline, dispatch}

check_destroy-Completed :
    (env : Env) (key : NameKey) (stack : Stack) (h : History) (name : Text) {p o : Option Text}
    → current_name stack ≡ some name
    → (check_update env key.ns name h).0 ≡ ok (succeeded p o)
    → ((check_destroy env key stack h).0 ≡ ok (some remove_finalizer_after_destroy))
      × ((check_destroy env key stack h).1.effects ≡ h.effects)
unfolding check_destroy check_current destroy_verdict continue return
check_destroy-Completed env key stack h name q e =
    rw q (ground (arith, check_update-effects env key.ns name h))

-- A stack is to be destroyed, and its current Update, of whatever type, is complete without a
-- failure: the pipeline asks for the removal of the finalizer, and has sent no request before.
pub removal_of_any_type :
    (env : Env) (key : NameKey) (stack : Stack) (h : History) (name : Text) (u : Update)
    → stack_finalizer_action stack ≡ run_destroy
    → current_name stack ≡ some name
    → env.get_update key.ns name h ≡ ok u
    → Completed u
    → ((run_pipeline env key stack h).0 ≡ ok (remove_finalizer_after_destroy, none))
      × ((run_pipeline env key stack h).1.effects ≡ h.effects)
unfolding run_pipeline dispatch handle_destroy continue return
removal_of_any_type env key stack h name u a q r c =
    let (p, o, e) = check_update-Completed env key.ns name h u r c in
    rw (a, run_pipeline, dispatch)
      (ground (arith, check_destroy-Completed env key stack h name q e))
