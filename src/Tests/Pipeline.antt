-- ===== src/Tests/Pipeline.antt =====
-- The pipeline and the decisions it rests on, at concrete inputs.
use pulumi_rs_kube_operator.Base.{none, some, text, text_eq, ok, pos, ◌≡◌, refl}
use pulumi_rs_kube_operator.Api.Meta.{has_finalizer}
use pulumi_rs_kube_operator.Api.Stack.{Stack}
use pulumi_rs_kube_operator.Operator.Effects.{read, request, perform, pure}
use pulumi_rs_kube_operator.Operator.Fallible.{continue, return, lift, of_result, or_panic, map_err}
use pulumi_rs_kube_operator.Operator.Finalizers.{
  stack_finalizer_action, stack_case, keep, run_destroy,
}
use pulumi_rs_kube_operator.Reconcile.Action.{update_created, remove_finalizer_after_destroy}
use pulumi_rs_kube_operator.Reconcile.Sync.{is_synced, last_update, synced_with}
use pulumi_rs_kube_operator.Reconcile.Pipeline.{
  run_pipeline, dispatch, normal_flow, verify_project, project_verdict, check_outstanding,
  check_named, advance, protect_program, check_ready, launch,
}
use pulumi_rs_kube_operator.Reconcile.Project.{check_project}
use pulumi_rs_kube_operator.Reconcile.Source.{from_spec, source_case, resolve, resolve_git}
use pulumi_rs_kube_operator.Reconcile.Workspace.{
  ensure_workspace, workspace_reply, refresh_workspace, replicas_ready,
}
use pulumi_rs_kube_operator.Reconcile.CreateUpdate.{
  create_update_for, create_named, create_reply, hex_short,
}
use pulumi_rs_kube_operator.Reconcile.CheckUpdate.{is_char_boundary, starts_char, slice_to}
use pulumi_rs_kube_operator.Reconcile.Destroy.{
  handle_destroy, check_destroy, check_current, current_name, destroy_verdict,
}
use pulumi_rs_kube_operator.Reconcile.Prerequisites.{check_prerequisites}
use pulumi_rs_kube_operator.Api.Stack.{delete_kustomization}
use pulumi_rs_kube_operator.Tests.Data.{spec}
use pulumi_rs_kube_operator.Reconcile.Pipeline.Launch.{created-Justified, Justified}
use pulumi_rs_kube_operator.Reconcile.Pipeline.Deletion.{removal-completed, CurrentCompleted}
use pulumi_rs_kube_operator.Reconcile.Pipeline.Premature.{removal_of_any_type}
use pulumi_rs_kube_operator.Reconcile.CheckUpdate.{
  check_update, check_reply, check_status, is_true, find_condition, succeeded,
}
use pulumi_rs_kube_operator.Reconcile.CheckUpdate.Verdict.{Completed}
use pulumi_rs_kube_operator.Tests.Data.{
  key, stack, deleted_stack, env, start, commit, status_of, update_name as made_name, up_update,
  update_status,
}

creates : (run_pipeline env key stack start).0 ≡ ok (update_created made_name, some commit)
unfolding run_pipeline dispatch normal_flow verify_project project_verdict check_outstanding
    check_named advance protect_program check_ready launch check_project from_spec source_case
    resolve resolve_git ensure_workspace workspace_reply refresh_workspace replicas_ready
    create_update_for create_named create_reply hex_short is_char_boundary starts_char slice_to
    current_name is_synced last_update synced_with stack_finalizer_action stack_case has_finalizer
    read request perform continue return lift of_result or_panic map_err text text_eq pure
    check_prerequisites
creates = refl

created-Justified_example :
    (stack_finalizer_action stack ≡ keep)
    × Justified env key stack made_name (some commit) (run_pipeline env key stack start).1
created-Justified_example = created-Justified env key stack start creates

deletes : stack_finalizer_action deleted_stack ≡ run_destroy
unfolding stack_finalizer_action stack_case has_finalizer text_eq text
deletes = refl

names : current_name deleted_stack ≡ some made_name
unfolding current_name
names = refl

removes : (run_pipeline env key deleted_stack start).0 ≡ ok (remove_finalizer_after_destroy, none)
unfolding run_pipeline dispatch handle_destroy check_destroy check_current current_name
    destroy_verdict check_update check_reply check_status is_true find_condition
    stack_finalizer_action stack_case has_finalizer read continue return lift text text_eq
removes = refl

removal-completed_example :
    (stack_finalizer_action deleted_stack ≡ run_destroy)
    × CurrentCompleted env key deleted_stack start
removal-completed_example = removal-completed env key deleted_stack start removes

up_update-Completed : Completed up_update
unfolding is_true find_condition text text_eq
up_update-Completed = record {
  status = update_status;
  has_status = refl;
  complete = refl;
  not_failed = refl;
}

removal_of_any_type_example :
    ((run_pipeline env key deleted_stack start).0 ≡ ok (remove_finalizer_after_destroy, none))
    × ((run_pipeline env key deleted_stack start).1.effects ≡ start.effects)
removal_of_any_type_example =
    removal_of_any_type env key deleted_stack start made_name up_update deletes names refl
      up_update-Completed

makes : (create_update_for env key stack commit start).0 ≡ ok made_name
unfolding create_update_for create_named create_reply hex_short is_char_boundary starts_char
    slice_to request continue return lift or_panic text
makes = refl

verdict : (check_update env key.ns made_name start).0 ≡ ok (succeeded none none)
unfolding check_update check_reply check_status is_true find_condition read continue return lift
    text text_eq
verdict = refl

-- A stack whose project was found missing ten seconds ago, without a grace period.
abbrev expired_stack : Stack
expired_stack = record stack {
  spec = record spec {
    project_verification = some (record {
      variable_name = text "project";
      provider = text "gcp";
      grace_period_days = pos 0;
      on_grace_period_expired = delete_kustomization;
    });
  };
  status = some (record (status_of none none) {
    pending_deletion_since = some (text "t");
    last_project_check =
        some (record { checked_at = text "t"; result = text "not_found"; message = none });
  });
}
