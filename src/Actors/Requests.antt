-- ===== src/Actors/Requests.antt =====
-- src/operator/actors/actor.rs: requests of the actor to the API server and to the agent.
pub mod Orphans
use pulumi_rs_kube_operator.Base.{
  Bool, ◌&&◌, not, none, some, or_else, List, [], ◌∷◌, ◌++◌, ok, err, Text, text, text_eq, any,
  find, retain, if◌then◌else◌,
}
use pulumi_rs_kube_operator.Api.Meta.{finalizers_of, name_any}
use pulumi_rs_kube_operator.Api.Conditions.{stack_finalizer}
use pulumi_rs_kube_operator.Api.Stack.{Stack, retain_workspace, delete_workspace as delete_policy}
use pulumi_rs_kube_operator.Api.Update.{Update}
use pulumi_rs_kube_operator.Operator.Messages.{NameKey}
use pulumi_rs_kube_operator.Operator.LockState.{on_success}
use pulumi_rs_kube_operator.Operator.Events.{StackEvent, force_unlocked_event}
use pulumi_rs_kube_operator.Operator.Status.{StatusPatch}
use pulumi_rs_kube_operator.Operator.Effects.{
  Env, M, read, perform, request, pure, event, set_stack_finalizers, patch_stack_status,
  delete_workspace, delete_kustomization, clear_update_finalizers, cancel_update, ◌>>=◌, ◌>>◌,
}
use pulumi_rs_kube_operator.Actors.State.{ActorState}

-- A request whose failure is only logged.
unfoldable pub attempt : Env → NameKey → StatusPatch → M (Unit {0})
attempt env key patch = do request env (patch_stack_status key patch); pure tt

unfoldable pub record_event : StackEvent → M (Unit {0})
record_event e = perform (event e)

unfoldable pub delete_stack_workspace : Env → NameKey → M (Unit {0})
delete_stack_workspace env key = do request env (delete_workspace key.ns key.name); pure tt

-- The reclaim policy of an ephemeral workspace.
unfoldable pub reclaim_workspace : Env → NameKey → Stack → M (Unit {0})
unfolding delete_stack_workspace
reclaim_workspace env key stack = elim stack.spec.workspace_reclaim_policy [
  | delete_policy ↦ delete_stack_workspace env key
  | retain_workspace ↦ pure tt
]

-- All finalizers but the operator's own are sent back.
unfoldable pub remove_stack_finalizer : Env → NameKey → Stack → M (Unit {0})
remove_stack_finalizer env key stack = do
  let others = retain (λ f. not (text_eq f stack_finalizer)) (finalizers_of stack.metadata)
  request env (set_stack_finalizers key others)
  pure tt

unfoldable pub remove_update_finalizer : Env → Text → Text → M (Unit {0})
remove_update_finalizer env ns update_name = do
  request env (clear_update_finalizers ns update_name)
  pure tt

unfoldable pub owned_by_stack : NameKey → Update → Bool
owned_by_stack key update =
    any (λ o. text_eq o.kind (text "Stack") && text_eq o.name key.name)
      update.metadata.owner_references

-- An Update of this stack that still carries the finalizer.
unfoldable pub is_orphan : NameKey → Update → Bool
unfolding owned_by_stack
is_orphan key update =
    owned_by_stack key update
    && any (λ f. text_eq f stack_finalizer) (finalizers_of update.metadata)

unfoldable pub cleanup_loop : Env → NameKey → List Update → M (Unit {0})
unfolding is_orphan remove_update_finalizer
cleanup_loop env key [] = pure tt
cleanup_loop env key (u ∷ us) =
    (if is_orphan key u then remove_update_finalizer env key.ns (name_any u.metadata) else pure tt)
    >> cleanup_loop env key us

unfoldable pub cleanup_orphaned_updates : Env → NameKey → M (Unit {0})
unfolding cleanup_loop
cleanup_orphaned_updates env key = do
  reply ← read (env.list_updates key.ns)
  elim reply [ err e ↦ pure tt | ok updates ↦ cleanup_loop env key updates ]

unfoldable pub delete_owning_kustomization : Env → NameKey → Stack → M (Unit {0})
delete_owning_kustomization env key stack =
    elim (find (λ o. text_eq o.kind (text "Kustomization")) stack.metadata.owner_references) [
      | none ↦ pure tt
      | some o ↦ (do request env (delete_kustomization key.ns o.name); pure tt)
    ]

-- src/operator/controllers/workspace.rs, `get_workspace_address`; the environment variable
-- WORKSPACE_LOCALHOST comes first.
unfoldable pub workspace_address : Env → NameKey → Text
workspace_address env key =
    or_else env.localhost (key.name ++ text "-workspace." ++ key.ns ++ text ":50051")

-- `handle_force_unlock`: cancel the running operation through the agent. Whether the connection
-- and the call succeed is up to the environment.
unfoldable pub handle_force_unlock : Env → NameKey → Stack → ActorState → M ActorState
unfolding reclaim_workspace record_event
handle_force_unlock env key stack st = do
  let address = workspace_address env key
  connected ← read (env.connect address)
  if connected
      then (do
        perform (cancel_update address)
        cancelled ← read (env.cancel_ok address)
        if cancelled
            then (do
              record_event force_unlocked_event
              pure (record st { lock_state = on_success st.lock_state }))
            else pure st)
      else (do reclaim_workspace env key stack; pure st)
