-- ===== src/Controllers/UpdateWatcher.antt =====
-- src/operator/controllers/mod.rs, `run_update_watcher`: which Updates are carried out, and the tasks
-- that do so. The set `update_in_progress` holds the keys `ns/name` of the Updates with a task.
pub mod Exclusion
pub mod Orphaned
use pulumi_rs_kube_operator.Base.{
  Bool, true, false, ◌&&◌, not, Option, none, some, List, [], ◌∷◌, ◌++◌, Text, text, text_eq, any,
  retain, ◌≡◌, if◌then◌else◌,
}
use pulumi_rs_kube_operator.Api.Meta.{OwnerReference, name_any}
use pulumi_rs_kube_operator.Api.Conditions.{Condition, update_complete, update_progressing}
use pulumi_rs_kube_operator.Api.Update.{Update, UpdateStatus}
use pulumi_rs_kube_operator.Operator.Messages.{NameKey}
use pulumi_rs_kube_operator.Controllers.ExecuteUpdate.{stack_owner}

-- `conditions.iter().any(|c| c.type_ == type_ && c.status == "True")`
unfoldable pub has_true : Text → List Condition → Bool
has_true type_ conditions =
    any (λ c. text_eq c.type_ type_ && text_eq c.status (text "True")) conditions

unfoldable pub has_status : Text → Option UpdateStatus → Bool
unfolding has_true
has_status type_ none = false
has_status type_ (some s) = has_true type_ s.conditions

unfoldable pub needs_execution : Update → Bool
unfolding has_status
needs_execution u =
    not (has_status update_progressing u.status) && not (has_status update_complete u.status)

-- What the watcher does about an Update: nothing, a task of `execute_update`, or a message to the
-- actor of a stack.
pub data Reaction : Type 0 where
  ignored : Reaction
  started : (key ns name workspace_name : Text) → Reaction
  notified : NameKey → Reaction

unfoldable pub update_key : (ns name : Text) → Text
update_key ns name = ns ++ text "/" ++ name

-- `set.contains(key)` and `set.remove(key)`
unfoldable pub holds : Text → List Text → Bool
holds key set = any (λ k. text_eq k key) set

unfoldable pub remove_key : Text → List Text → List Text
remove_key key set = retain (λ k. not (text_eq k key)) set

-- An Update that is to be carried out: it is entered, unless it is in the set already, and taken
-- out again if it names no workspace.
unfoldable pub start_task : (ns : Text) → Update → List Text → Reaction × List Text
unfolding update_key holds remove_key
start_task ns u in_progress =
    let name = name_any u.metadata in
    let key = update_key ns name in
    if holds key in_progress then (ignored, in_progress) else elim u.spec.workspace_name [
      | some workspace_name ↦ (started key ns name workspace_name, key ∷ in_progress)
      | none ↦ (ignored, remove_key key (key ∷ in_progress))
    ]

unfoldable pub notification : (ns : Text) → Option OwnerReference → Reaction
notification ns none = ignored
notification ns (some o) = notified (record { ns = ns; name = o.name })

-- An Update of a namespace; one without is passed over.
unfoldable pub apply_in : Option Text → Update → List Text → Reaction × List Text
unfolding needs_execution start_task notification
apply_in none u in_progress = (ignored, in_progress)
apply_in (some ns) u in_progress =
    if needs_execution u
    then start_task ns u in_progress
    else (notification ns (stack_owner u), in_progress)

-- The event that an Update was applied.
unfoldable pub on_apply : Update → List Text → Reaction × List Text
unfolding apply_in
on_apply u in_progress = apply_in u.metadata.namespace u in_progress

-- The set, and the keys of the tasks that run.
pub record Watch : Type 0 where
  pub in_progress : List Text
  pub tasks : List Text

abbrev pub spawn : Reaction → List Text → List Text
spawn ignored tasks = tasks
spawn (started key ns name workspace_name) tasks = key ∷ tasks
spawn (notified key) tasks = tasks

-- One event of the watcher.
unfoldable pub observe : Update → Watch → Watch
unfolding on_apply
observe u w =
    let (reaction, in_progress) = on_apply u w.in_progress in
    record { in_progress = in_progress; tasks = spawn reaction w.tasks }

-- The tasks without one of a key.
unfoldable pub end_one : Text → List Text → List Text
end_one key [] = []
end_one key (k ∷ ks) = if text_eq k key then ks else k ∷ end_one key ks

-- The end of a task, which takes its key out of the set.
unfoldable pub complete_task : Text → Watch → Watch
unfolding remove_key end_one
complete_task key w = record {
  in_progress = remove_key key w.in_progress;
  tasks = end_one key w.tasks;
}

-- The watcher and its tasks run side by side: an Update is observed, or a task that runs ends.
pub data Step : Watch → Watch → Type 0 where
  observed : {w : Watch} (u : Update) → Step w (observe u w)
  ended : {w : Watch} (key : Text) → holds key w.tasks ≡ true → Step w (complete_task key w)

pub data Reach : Watch → Type 0 where
  at_start : Reach (record { in_progress = []; tasks = [] })
  later : {v w : Watch} → Reach v → Step v w → Reach w
