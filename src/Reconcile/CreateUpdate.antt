-- ===== src/Reconcile/CreateUpdate.antt =====
-- src/operator/reconcile/pipeline.rs, `create_update`: an Update for a commit, made anew where a
-- finished one of the same name is left over.
use pulumi_rs_kube_operator.Base.{
  Bool, true, Option, none, some, [], ok, err, Text, text, ◌++◌, length, from_millis, leb, ◌==◌,
  if◌then◌else◌,
}
use pulumi_rs_kube_operator.Errors.{transient, kube_api_detailed}
use pulumi_rs_kube_operator.Api.Owner.{stack_owner_ref}
use pulumi_rs_kube_operator.Api.Stack.{Stack}
use pulumi_rs_kube_operator.Api.Update.{Update, UpdateSpec, preview, up}
use pulumi_rs_kube_operator.Operator.Finalizers.{build_update_with_finalizer}
use pulumi_rs_kube_operator.Operator.Messages.{NameKey}
use pulumi_rs_kube_operator.Operator.Effects.{
  Env, Op, Kube, api, other_error, request, perform, create_update, clear_update_finalizers,
  delete_update, sleep,
}
use pulumi_rs_kube_operator.Operator.Fallible.{◌>>=◌, ◌>>◌, return, throw, lift, map_err, or_panic}
use pulumi_rs_kube_operator.Reconcile.CheckUpdate.{
  UpdateCheckResult, in_progress, not_found, succeeded, failed, slice_to, check_update,
}
use pulumi_rs_kube_operator.Reconcile.Workspace.{api_failed}

-- The first eight bytes, or the whole text if it is shorter; slicing can panic.
unfoldable pub hex_short : Text → Option Text
hex_short commit = if leb 8 (length commit) then slice_to 8 commit else some commit

-- `if flag { Some(true) } else { None }`
abbrev pub flag : Bool → Option Bool
flag b = if b then some true else none

unfoldable pub update_spec : NameKey → Stack → UpdateSpec
update_spec key stack = record {
  workspace_name = some key.name;
  stack_name = some stack.spec.stack;
  update_type = some (if stack.spec.preview then preview else up);
  ttl_after_completed = none;
  parallel = none;
  message = none;
  expect_no_changes = flag stack.spec.expect_no_refresh_changes;
  replace = [];
  target = stack.spec.targets;
  target_dependents = flag stack.spec.target_dependents;
  refresh = flag stack.spec.refresh;
  continue_on_error = none;
  remove = none;
}

unfoldable pub new_update : NameKey → Stack → Text → Update
unfolding update_spec
new_update key stack name =
    build_update_with_finalizer name key.ns (update_spec key stack) (stack_owner_ref stack true)

-- Strip the finalizer, delete, wait, create; only the last may fail the step.
unfoldable pub replace_update : Env → NameKey → Stack → Text → Op Text
replace_update env key stack name = do
  lift (request env (clear_update_finalizers key.ns name))
  lift (request env (delete_update key.ns name))
  lift (perform (sleep (from_millis 500)))
  map_err (api_failed (text "failed to recreate update after stale delete"))
      (request env (create_update (new_update key stack name)))
  return name

-- An Update of this name exists: keep it while it runs, and replace a finished one.
unfoldable pub reuse_or_replace : Env → NameKey → Stack → Text → UpdateCheckResult → Op Text
unfolding replace_update
reuse_or_replace env key stack name in_progress = return name
reuse_or_replace env key stack name not_found = replace_update env key stack name
reuse_or_replace env key stack name (succeeded p o) = replace_update env key stack name
reuse_or_replace env key stack name (failed m) = replace_update env key stack name

unfoldable pub create_reply : Env → NameKey → Stack → Text → Kube (Unit {0}) → Op Text
unfolding reuse_or_replace
create_reply env key stack name (ok u) = return name
create_reply env key stack name (err (api code)) =
    if code == 409
    then (do check ← check_update env key.ns name; reuse_or_replace env key stack name check)
    else throw (transient (kube_api_detailed (text "failed to create update")))
create_reply env key stack name (err other_error) =
    throw (transient (kube_api_detailed (text "failed to create update")))

unfoldable pub create_named : Env → NameKey → Stack → Text → Op Text
unfolding create_reply
create_named env key stack name = do
  reply ← lift (request env (create_update (new_update key stack name)))
  create_reply env key stack name reply

-- The name of the Update for a short commit.
abbrev pub update_name : NameKey → Text → Text
update_name key short = key.name ++ text "-" ++ short

unfoldable pub create_update_for : Env → NameKey → Stack → Text → Op Text
unfolding create_named hex_short
create_update_for env key stack commit = do
  short ← or_panic (hex_short commit)
  create_named env key stack (update_name key short)
