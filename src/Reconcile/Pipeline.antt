-- ===== src/Reconcile/Pipeline.antt =====
-- src/operator/reconcile/pipeline.rs, `run_pipeline`. Of the actor's state the pipeline writes the
-- last commit only, at its end; that is the second part of its result.
pub mod Deletion
pub mod Premature
pub mod Creation
pub mod Launch
pub mod Expiry
use pulumi_rs_kube_operator.Base.{
  ℕ, Bool, true, false, Option, none, some, and_then, is_some, Text, ℤ, pos, or_else, Instant,
  if◌then◌else◌,
}
use pulumi_rs_kube_operator.Errors.{OperatorError}
use pulumi_rs_kube_operator.Api.Stack.{Stack, ProjectVerification}
use pulumi_rs_kube_operator.Operator.Messages.{NameKey}
use pulumi_rs_kube_operator.Operator.Finalizers.{
  StackFinalizerAction, stack_finalizer_action, add, keep, already_finalized, remove_immediately,
  run_destroy,
}
use pulumi_rs_kube_operator.Operator.Effects.{Env, Op, read}
use pulumi_rs_kube_operator.Operator.Fallible.{◌>>=◌, ◌>>◌, return, lift, of_result}
use pulumi_rs_kube_operator.Reconcile.Action.{
  ReconcileAction, add_finalizer, done, remove_finalizer, wait_for_update, wait_for_workspace,
  synced, update_created, update_succeeded, update_failed, project_missing, project_reinstated,
  project_ttl_expired,
}
use pulumi_rs_kube_operator.Reconcile.Sync.{is_synced}
use pulumi_rs_kube_operator.Reconcile.Prerequisites.{check_prerequisites}
use pulumi_rs_kube_operator.Reconcile.Source.{SourceKind, git, flux, program, from_spec, resolve}
use pulumi_rs_kube_operator.Reconcile.Project.{
  ProjectCheckResult, not_configured, active, project_not_found, check_error, check_project,
  is_grace_period_expired,
}
use pulumi_rs_kube_operator.Reconcile.CheckUpdate.{
  UpdateCheckResult, in_progress, not_found, succeeded, failed, check_update,
}
use pulumi_rs_kube_operator.Reconcile.Workspace.{ensure_workspace, ensure_program_finalizer}
use pulumi_rs_kube_operator.Reconcile.CreateUpdate.{create_update_for}
use pulumi_rs_kube_operator.Reconcile.Destroy.{handle_destroy, current_name}

-- An action, and the commit to remember if an Update was created.
abbrev pub Outcome : Type 0
Outcome = ReconcileAction × Option Text

unfoldable pub pending_since : Stack → Option Text
pending_since stack = and_then stack.status (λ s. s.pending_deletion_since)

abbrev pub grace_days : Option ProjectVerification → ℤ
grace_days none = pos 30
grace_days (some v) = v.grace_period_days

-- Step 0.5; none goes on.
unfoldable pub project_verdict :
    (Text → Option Instant) → Instant → Stack → ProjectCheckResult → Option ReconcileAction
unfolding pending_since
project_verdict parse now stack not_configured = none
project_verdict parse now stack active =
    if is_some (pending_since stack) then some project_reinstated else none
project_verdict parse now stack (project_not_found id) = elim (pending_since stack) [
  | none ↦ some (project_missing id)
  | some since ↦
      if is_grace_period_expired parse now since (grace_days stack.spec.project_verification)
      then some project_ttl_expired
      else some (project_missing id)
]
project_verdict parse now stack (check_error m) = none

unfoldable pub verify_project : Env → NameKey → Stack → Op (Option ReconcileAction)
unfolding project_verdict
verify_project env key stack = do
  result ← lift (check_project env key.ns stack)
  now ← lift (read env.utc)
  return (project_verdict env.parse_rfc3339 now stack result)

-- Step 1: the outstanding Update; none goes on.
unfoldable pub update_verdict : Text → UpdateCheckResult → Option ReconcileAction
update_verdict name in_progress = some (wait_for_update name)
update_verdict name (succeeded permalink outputs) = some (update_succeeded name permalink outputs)
update_verdict name (failed message) = some (update_failed name message)
update_verdict name not_found = none

unfoldable pub check_named : Env → NameKey → Option Text → Op (Option ReconcileAction)
unfolding update_verdict
check_named env key none = return none
check_named env key (some name) = do
  check ← check_update env key.ns name
  return (update_verdict name check)

unfoldable pub check_outstanding : Env → NameKey → Stack → Op (Option ReconcileAction)
unfolding check_named
check_outstanding env key stack = check_named env key (current_name stack)

-- Step 4, for sources that are Programs.
unfoldable pub protect_program : Env → NameKey → SourceKind → Op (Unit {0})
protect_program env key (git r b c) = return tt
protect_program env key (flux f) = return tt
protect_program env key (program p) = ensure_program_finalizer env key.ns p.name

-- Steps 7 to 9.
unfoldable pub launch : Env → NameKey → Stack → Text → Op Outcome
launch env key stack commit = do
  ws_ready ← ensure_workspace env key stack
  if ws_ready
      then (do
        name ← create_update_for env key stack commit
        return (update_created name, some commit))
      else return (wait_for_workspace, none)

-- Step 6.
unfoldable pub check_ready : Env → NameKey → Stack → Op (Unit {0})
unfolding check_prerequisites
check_ready env key stack = check_prerequisites env key.ns stack.spec.prerequisites

-- Steps 3 to 9.
unfoldable pub advance : Env → NameKey → Stack → Op Outcome
unfolding protect_program check_ready launch
advance env key stack = do
  source ← of_result (from_spec stack.spec)
  info ← resolve env key.ns source
  protect_program env key source
  now ← lift (read env.utc)
  if is_synced env.parse_rfc3339 now stack info.commit
      then return (synced, none)
      else (do check_ready env key stack; launch env key stack info.commit)

abbrev pub or_advance : Option ReconcileAction → Op Outcome → Op Outcome
or_advance (some action) rest = return (action, none)
or_advance none rest = rest

-- Everything after the finalizer check.
unfoldable pub normal_flow : Env → NameKey → Stack → Op Outcome
unfolding verify_project check_outstanding advance
normal_flow env key stack = do
  verified ← verify_project env key stack
  or_advance verified (do
    outstanding ← check_outstanding env key stack
    or_advance outstanding (
        if is_some stack.metadata.deletion_timestamp
        then return (done, none)
        else advance env key stack))

-- Step 0: what the finalizer check asks for.
unfoldable pub dispatch : Env → NameKey → Stack → StackFinalizerAction → Op Outcome
unfolding normal_flow
dispatch env key stack add = return (add_finalizer, none)
dispatch env key stack already_finalized = return (done, none)
dispatch env key stack remove_immediately = return (remove_finalizer, none)
dispatch env key stack run_destroy = do action ← handle_destroy env key stack; return (action, none)
dispatch env key stack keep = normal_flow env key stack

unfoldable pub run_pipeline : Env → NameKey → Stack → Op Outcome
unfolding dispatch
run_pipeline env key stack = dispatch env key stack (stack_finalizer_action stack)
