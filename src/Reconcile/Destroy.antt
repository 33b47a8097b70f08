-- ===== src/Reconcile/Destroy.antt =====
-- src/operator/reconcile/pipeline.rs, `handle_destroy` and `create_destroy_update`: the destroy run
-- of a stack that is being deleted, over several reconciles.
use pulumi_rs_kube_operator.Base.{
  Bool, true, false, ◌&&◌, Option, none, some, or_else, and_then, [], Text, text, ◌++◌, ℤ, pos,
  succ_i64, is_positive, option_text_eq, Instant, ltb, if◌then◌else◌,
}
use pulumi_rs_kube_operator.Core.Time.{elapsed_since}
use pulumi_rs_kube_operator.Api.Owner.{stack_owner_ref}
use pulumi_rs_kube_operator.Api.Stack.{Stack, StackUpdateState}
use pulumi_rs_kube_operator.Api.Update.{Update, UpdateSpec, destroy}
use pulumi_rs_kube_operator.Operator.Finalizers.{build_update_with_finalizer}
use pulumi_rs_kube_operator.Operator.Messages.{NameKey}
use pulumi_rs_kube_operator.Operator.Effects.{Env, Op, read, request, create_update}
use pulumi_rs_kube_operator.Operator.Fallible.{◌>>=◌, ◌>>◌, return, lift, map_err}
use pulumi_rs_kube_operator.Reconcile.Sync.{cooldown, last_update}
use pulumi_rs_kube_operator.Reconcile.CheckUpdate.{
  UpdateCheckResult, in_progress, not_found, succeeded, failed, check_update,
}
use pulumi_rs_kube_operator.Reconcile.Workspace.{api_failed, ensure_workspace}
use pulumi_rs_kube_operator.Reconcile.CreateUpdate.{flag}
use pulumi_rs_kube_operator.Reconcile.Action.{
  ReconcileAction, wait_for_update, wait_for_workspace, destroy_started, destroy_failed,
  remove_finalizer_after_destroy,
}

unfoldable pub destroy_spec : NameKey → Stack → UpdateSpec
destroy_spec key stack = record {
  workspace_name = some key.name;
  stack_name = some stack.spec.stack;
  update_type = some destroy;
  ttl_after_completed = some (text "24h");
  parallel = none;
  message = some (text "Destroying stack (finalizer)");
  expect_no_changes = none;
  replace = [];
  target = stack.spec.targets;
  target_dependents = flag stack.spec.target_dependents;
  refresh = flag stack.spec.refresh;
  continue_on_error = some true;
  remove = some true;
}

unfoldable pub destroy_update : NameKey → Stack → Text → Update
unfolding destroy_spec
destroy_update key stack name =
    build_update_with_finalizer name key.ns (destroy_spec key stack) (stack_owner_ref stack false)

unfoldable pub create_destroy_update : Env → NameKey → Stack → Op Text
create_destroy_update env key stack = do
  now ← lift (read env.utc)
  let name = key.name ++ text "-destroy-" ++ env.timestamp now
  map_err (api_failed (text "failed to create destroy update"))
      (request env (create_update (destroy_update key stack name)))
  return name

-- The name of the Update that the status calls current.
unfoldable pub current_name : Stack → Option Text
current_name stack = and_then stack.status λ s. and_then s.current_update λ c. c.name

unfoldable pub last_failures : Stack → ℤ
last_failures stack = elim (last_update stack) [ none ↦ pos 0 | some u ↦ u.failures ]

-- What the current Update's state means; none goes on to create a destroy Update.
unfoldable pub destroy_verdict : Stack → Text → UpdateCheckResult → Option ReconcileAction
unfolding last_failures
destroy_verdict stack name in_progress = some (wait_for_update name)
destroy_verdict stack name (succeeded p o) = some remove_finalizer_after_destroy
destroy_verdict stack name (failed m) = some (destroy_failed name (succ_i64 (last_failures stack)))
destroy_verdict stack name not_found = none

unfoldable pub check_current : Env → NameKey → Stack → Option Text → Op (Option ReconcileAction)
unfolding destroy_verdict
check_current env key stack none = return none
check_current env key stack (some name) = do
  check ← check_update env key.ns name
  return (destroy_verdict stack name check)

unfoldable pub check_destroy : Env → NameKey → Stack → Op (Option ReconcileAction)
unfolding check_current
check_destroy env key stack = check_current env key stack (current_name stack)

-- A failed destroy run is still cooling down.
unfoldable pub in_cooldown : (Text → Option Instant) → Instant → Stack → StackUpdateState → Bool
in_cooldown parse now stack u =
    option_text_eq u.state (some (text "failed"))
    && option_text_eq u.update_type (some (text "destroy"))
    && is_positive u.failures
    && ltb (elapsed_since parse now u.last_resync_time) (cooldown u.failures stack)

unfoldable pub cooling_down : Env → Stack → Op (Option ReconcileAction)
unfolding in_cooldown
cooling_down env stack = do
  now ← lift (read env.utc)
  elim (last_update stack) [
    | none ↦ return none
    | some u ↦
        if in_cooldown env.parse_rfc3339 now stack u
        then return (some (wait_for_update (or_else u.name [])))
        else return none
  ]

unfoldable pub start_destroy : Env → NameKey → Stack → Op ReconcileAction
start_destroy env key stack = do
  ws_ready ← ensure_workspace env key stack
  if ws_ready
      then (do name ← create_destroy_update env key stack; return (destroy_started name))
      else return wait_for_workspace

abbrev pub or_continue : Option ReconcileAction → Op ReconcileAction → Op ReconcileAction
or_continue (some action) rest = return action
or_continue none rest = rest

unfoldable pub handle_destroy : Env → NameKey → Stack → Op ReconcileAction
unfolding check_destroy cooling_down start_destroy
handle_destroy env key stack = do
  verdict ← check_destroy env key stack
  or_continue verdict
      (do waiting ← cooling_down env stack; or_continue waiting (start_destroy env key stack))
