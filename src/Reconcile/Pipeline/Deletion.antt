-- ===== src/Reconcile/Pipeline/Deletion.antt =====
-- src/operator/reconcile/pipeline.rs: what the pipeline does with a stack that is being deleted.
use pulumi_rs_kube_operator.Base.{Option, none, some, Result, ok, err, Text, ◌≡◌, refl, ap, arith}
use pulumi_rs_kube_operator.Api.Stack.{Stack}
use pulumi_rs_kube_operator.Api.Update.{Update}
use pulumi_rs_kube_operator.Operator.Messages.{NameKey}
use pulumi_rs_kube_operator.Operator.Finalizers.{stack_finalizer_action, run_destroy}
use pulumi_rs_kube_operator.Operator.Effects.{Env, History, Fault}
use pulumi_rs_kube_operator.Operator.Fallible.{continue, return, lift, of_result}
use pulumi_rs_kube_operator.Reconcile.Action.{remove_finalizer_after_destroy}
use pulumi_rs_kube_operator.Reconcile.CheckUpdate.{UpdateCheckResult, check_update}
use pulumi_rs_kube_operator.Reconcile.CheckUpdate.Verdict.{Completed, check_update_succeeded}
use pulumi_rs_kube_operator.Reconcile.Destroy.{
  handle_destroy, check_destroy, check_current, destroy_verdict, cooling_down, start_destroy,
  current_name,
}
use pulumi_rs_kube_operator.Reconcile.Pipeline.{
  run_pipeline, normal_flow, verify_project, check_outstanding, advance, launch, project_verdict,
  update_verdict,
}

start_destroy-ne-removal :
    (env : Env) (key : NameKey) (stack : Stack) (h : History)
    → (start_destroy env key stack h).0 ≡ ok remove_finalizer_after_destroy
    → ⊥
unfolding start_destroy continue return
start_destroy-ne-removal env key stack h e = ground arith

cooling_down-ne-removal :
    (env : Env) (stack : Stack) (h : History)
    → (cooling_down env stack h).0 ≡ ok (some remove_finalizer_after_destroy)
    → ⊥
unfolding cooling_down continue return lift
cooling_down-ne-removal env stack h e = ground arith

advance-ne-removal :
    (env : Env) (key : NameKey) (stack : Stack) (h : History) {c : Option Text}
    → (advance env key stack h).0 ≡ ok (remove_finalizer_after_destroy, c)
    → ⊥
unfolding advance launch continue return lift of_result
advance-ne-removal env key stack h e = ground arith

normal_flow-ne-removal :
    (env : Env) (key : NameKey) (stack : Stack) (h : History) {c : Option Text}
    → (normal_flow env key stack h).0 ≡ ok (remove_finalizer_after_destroy, c)
    → ⊥
unfolding normal_flow verify_project project_verdict check_outstanding update_verdict continue
    return lift
normal_flow-ne-removal env key stack h e = ground (arith, advance-ne-removal env key stack)

destroy_verdict-removal :
    (stack : Stack) (name : Text) (r : UpdateCheckResult)
    → destroy_verdict stack name r ≡ some remove_finalizer_after_destroy
    → (p o : Option Text) × (r ≡ UpdateCheckResult.succeeded p o)
unfolding destroy_verdict
destroy_verdict-removal stack name (UpdateCheckResult.succeeded p o) e = (p, o, refl)
destroy_verdict-removal stack name UpdateCheckResult.in_progress e = cc
destroy_verdict-removal stack name UpdateCheckResult.not_found e = cc
destroy_verdict-removal stack name (UpdateCheckResult.failed m) e = cc

-- The Update that the status calls current was read, and is complete without a failure.
pub record CurrentCompleted (env : Env) (key : NameKey) (stack : Stack) (h : History) : Type 0 where
  pub name : Text
  pub is_current : current_name stack ≡ some name
  pub update : Update
  pub was_read : env.get_update key.ns name h ≡ ok update
  pub completed : Completed update

current_completed :
    (env : Env) (key : NameKey) (stack : Stack) (h : History) (name : Text) {p o : Option Text}
    → current_name stack ≡ some name
    → (check_update env key.ns name h).0 ≡ ok (UpdateCheckResult.succeeded p o)
    → CurrentCompleted env key stack h
current_completed env key stack h name q e =
    let (u, r, c) = check_update_succeeded env key.ns name h e in
    record { name = name; is_current = q; update = u; was_read = r; completed = c }

returned-removal :
    (stack : Stack) (name : Text) (r : Result Fault UpdateCheckResult) (h : History)
    → (continue r (λ check. return (destroy_verdict stack name check)) h).0
      ≡ ok (some remove_finalizer_after_destroy)
    → (p o : Option Text) × (r ≡ ok (UpdateCheckResult.succeeded p o))
unfolding continue return
returned-removal stack name (ok r) h e =
    let (p, o, q) = destroy_verdict-removal stack name r (ground arith) in (p, o, ap ok q)
returned-removal stack name (err f) h e = cc

check_current-removal :
    (env : Env) (key : NameKey) (stack : Stack) (h : History) (name : Option Text)
    → current_name stack ≡ name
    → (check_current env key stack name h).0 ≡ ok (some remove_finalizer_after_destroy)
    → CurrentCompleted env key stack h
unfolding check_current return
check_current-removal env key stack h none q e = cc
check_current-removal env key stack h (some name) q e =
    let (p, o, r) = returned-removal stack name (check_update env key.ns name h).0 _ e in
    current_completed env key stack h name q r

handle_destroy-removal :
    (env : Env) (key : NameKey) (stack : Stack) (h : History)
    → (handle_destroy env key stack h).0 ≡ ok remove_finalizer_after_destroy
    → (check_destroy env key stack h).0 ≡ ok (some remove_finalizer_after_destroy)
unfolding handle_destroy continue return
handle_destroy-removal env key stack h e = ground (
  arith,
  cooling_down-ne-removal env stack (check_destroy env key stack h).1,
  start_destroy-ne-removal env key stack
      (cooling_down env stack (check_destroy env key stack h).1).1,
)

run_pipeline-removal :
    (env : Env) (key : NameKey) (stack : Stack) (h : History) {c : Option Text}
    → (run_pipeline env key stack h).0 ≡ ok (remove_finalizer_after_destroy, c)
    → (stack_finalizer_action stack ≡ run_destroy)
      × ((handle_destroy env key stack h).0 ≡ ok remove_finalizer_after_destroy)
unfolding run_pipeline continue return
run_pipeline-removal env key stack h e = ground (arith, normal_flow-ne-removal env key stack h)

-- The pipeline asks for the removal of the finalizer after a destroy run only for a stack that is
-- to be destroyed, and only once the Update that its status calls current has been read and is
-- complete without a failure.
pub removal-completed :
    (env : Env) (key : NameKey) (stack : Stack) (h : History) {c : Option Text}
    → (run_pipeline env key stack h).0 ≡ ok (remove_finalizer_after_destroy, c)
    → (stack_finalizer_action stack ≡ run_destroy) × CurrentCompleted env key stack h
unfolding check_destroy
removal-completed env key stack h e =
    let (d, r) = run_pipeline-removal env key stack h e in
    (
      d,
      check_current-removal env key stack h (current_name stack) refl
          (handle_destroy-removal env key stack h r),
    )
