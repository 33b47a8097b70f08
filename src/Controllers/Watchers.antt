-- ===== src/Controllers/Watchers.antt =====
-- src/operator/controllers/mod.rs: the watchers of Stacks and Workspaces, and the task that drops idle
-- connections.
use pulumi_rs_kube_operator.Base.{
  ℕ, Option, none, some, find, length, Text, text, text_eq, Instant, Duration, from_secs,
}
use pulumi_rs_kube_operator.Api.Meta.{OwnerReference, name_any}
use pulumi_rs_kube_operator.Api.Stack.{Stack}
use pulumi_rs_kube_operator.Api.Workspace.{Workspace}
use pulumi_rs_kube_operator.Operator.Messages.{
  StackMessage, reconcile, stack_changed, workspace_changed,
}
use pulumi_rs_kube_operator.Operator.Effects.{M, perform, pure, dispatch}
use pulumi_rs_kube_operator.Operator.Connection.{Pool, evict_idle}

-- The events of kube's watcher.
pub data Event (K : Type 0) : Type 0 where
  apply init_apply delete : K → Event K
  init init_done watch_error : Event K

abbrev pub tell : (ns name : Text) → StackMessage → M (Unit {0})
tell ns name message = perform (dispatch (record { ns = ns; name = name }) message)

unfoldable pub tell_stack : Option Text → Stack → M (Unit {0})
tell_stack none stack = pure tt
tell_stack (some ns) stack = tell ns (name_any stack.metadata) (reconcile stack_changed)

unfoldable pub on_stack_event : Event Stack → M (Unit {0})
unfolding tell_stack
on_stack_event (apply stack) = tell_stack stack.metadata.namespace stack
on_stack_event (init_apply stack) = tell_stack stack.metadata.namespace stack
on_stack_event (delete stack) = tell_stack stack.metadata.namespace stack
on_stack_event init = pure tt
on_stack_event init_done = pure tt
on_stack_event watch_error = pure tt

unfoldable pub tell_owner : (ns : Text) → Option OwnerReference → M (Unit {0})
tell_owner ns none = pure tt
tell_owner ns (some owner) = tell ns owner.name (reconcile workspace_changed)

unfoldable pub tell_workspace : Option Text → Workspace → M (Unit {0})
unfolding tell_owner
tell_workspace none ws = pure tt
tell_workspace (some ns) ws =
    tell_owner ns (find (λ o. text_eq o.kind (text "Stack")) ws.metadata.owner_references)

unfoldable pub on_workspace_event : Event Workspace → M (Unit {0})
unfolding tell_workspace
on_workspace_event (apply ws) = tell_workspace ws.metadata.namespace ws
on_workspace_event (init_apply ws) = tell_workspace ws.metadata.namespace ws
on_workspace_event (delete ws) = pure tt
on_workspace_event init = pure tt
on_workspace_event init_done = pure tt
on_workspace_event watch_error = pure tt

abbrev pub evict_interval : Duration
evict_interval = from_secs 300

-- One turn of the evictor: the pool, and the size that is shown of it.
unfoldable pub evict_turn : {C : Type 0} → Instant → Pool C → Pool C × ℕ
unfolding evict_idle
evict_turn now p = let q = evict_idle now p in (q, length q.index)
