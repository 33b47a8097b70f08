-- ===== src/Controllers/UpdateWatcher/Orphaned.antt =====
-- src/operator/controllers/mod.rs: an Update whose task is gone.
use pulumi_rs_kube_operator.Base.{
  false, Option, none, some, ok, List, Text, text, text_eq, ◌≡◌, ◌≢◌, refl, arith,
}
use pulumi_rs_kube_operator.Api.Meta.{OwnerReference}
use pulumi_rs_kube_operator.Api.Conditions.{update_complete}
use pulumi_rs_kube_operator.Api.Update.{Update, UpdateStatus}
use pulumi_rs_kube_operator.Operator.Effects.{Env, History, read}
use pulumi_rs_kube_operator.Operator.Fallible.{continue, return, lift}
use pulumi_rs_kube_operator.Reconcile.CheckUpdate.{
  in_progress, find_condition, is_true, check_status, check_reply, check_update,
}
use pulumi_rs_kube_operator.Controllers.ExecuteUpdate.{
  stack_owner, progressing_patch, update_condition,
}
use pulumi_rs_kube_operator.Controllers.ExecuteUpdate.Verdict.{Applied}
use pulumi_rs_kube_operator.Controllers.UpdateWatcher.{
  has_true, has_status, needs_execution, Reaction, started, notification, apply_in, on_apply,
}

progressing-needs_execution :
    (now : Text) (u : Update) (s : UpdateStatus)
    → u.status ≡ some s
    → Applied (progressing_patch now) s
    → needs_execution u ≡ false
unfolding needs_execution has_status has_true progressing_patch update_condition text text_eq
progressing-needs_execution now u s e a = rw (e, a.conditions) refl

progressing_complete :
    (now : Text)
    → is_true (find_condition update_complete (progressing_patch now).conditions) ≡ false
unfolding is_true find_condition progressing_patch update_condition text text_eq
progressing_complete now = refl

-- The watcher does not start a task.
abbrev pub NoTask : Reaction → Type 0
NoTask r = (key ns name workspace_name : Text) → r ≢ started key ns name workspace_name

notification-NoTask : (ns : Text) (o : Option OwnerReference) → NoTask (notification ns o)
unfolding notification
notification-NoTask ns none k n m w e = absurd (ground arith)
notification-NoTask ns (some o) k n m w e = absurd (ground arith)

apply_in-NoTask :
    (o : Option Text) (u : Update) (set : List Text)
    → needs_execution u ≡ false
    → NoTask (apply_in o u set).0
unfolding apply_in
apply_in-NoTask none u set n = λ key ns name w e. absurd (ground arith)
apply_in-NoTask (some ns) u set n = rw n (notification-NoTask ns (stack_owner u))

-- Once the status says that an Update is progressing, the watcher never starts a task for it again,
-- whatever it holds to be in progress, and `check_update` says that it is in progress.
pub progressing-Orphaned :
    (env : Env) (ns name now : Text) (u : Update) (s : UpdateStatus) (set : List Text) (h : History)
    → env.get_update ns name h ≡ ok u
    → u.status ≡ some s
    → Applied (progressing_patch now) s
    → NoTask (on_apply u set).0 × ((check_update env ns name h).0 ≡ ok in_progress)
unfolding on_apply check_update check_reply check_status continue lift read return
progressing-Orphaned env ns name now u s set h got status applied = (
  apply_in-NoTask u.metadata.namespace u set (progressing-needs_execution now u s status applied),
  rw (got, status, applied.conditions, progressing_complete now) refl,
)
