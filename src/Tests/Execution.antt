-- ===== src/Tests/Execution.antt =====
-- An Update that is carried out, at a concrete agent.
use pulumi_rs_kube_operator.Base.{
  true, Option, contains, if◌then◌else◌, ◌==◌, none, some, List, [], ◌∷◌, ok, err, Text, text, ◌≡◌,
  refl,
}
use pulumi_rs_kube_operator.Api.Update.{Update, UpdateStatus}
use pulumi_rs_kube_operator.Core.Lock.{retry_on_lock, is_lock_error}
use pulumi_rs_kube_operator.Operator.Effects.{Env, read}
use pulumi_rs_kube_operator.Operator.Fallible.{continue, lift, return, or_panic}
use pulumi_rs_kube_operator.Operator.Status.{UpdatePatch}
use pulumi_rs_kube_operator.Reconcile.CheckUpdate.{check_update, in_progress}
use pulumi_rs_kube_operator.Controllers.Protocol.{UpResult, OperationResult, event_response, result}
use pulumi_rs_kube_operator.Controllers.StreamUpdate.{
  Agent, Stream, StreamResult, default_result, drain, store_up, store_result, stream_update,
}
use pulumi_rs_kube_operator.Controllers.StreamUpdate.Drain.{
  drain-Summary, ended, keep, first_error, last_result,
}
use pulumi_rs_kube_operator.Controllers.StreamUpdate.Calls.{stream_update-calls, calls, Called}
use pulumi_rs_kube_operator.Controllers.ExecuteUpdate.{Runtime, final_patch, progressing_patch}
use pulumi_rs_kube_operator.Controllers.ExecuteUpdate.Verdict.{final_patch-check_update, verdict}
use pulumi_rs_kube_operator.Controllers.UpdateWatcher.{on_apply, observe, at_start, later, observed}
use pulumi_rs_kube_operator.Controllers.UpdateWatcher.Exclusion.{Reach-Exclusive, Exclusive}
use pulumi_rs_kube_operator.Controllers.UpdateWatcher.Orphaned.{progressing-Orphaned, NoTask}
use pulumi_rs_kube_operator.Tests.Data.{env, start, up_update, update_status}

abbrev up_result : UpResult
up_result = record {
  stdout = text "done";
  stderr = [];
  permalink = some (text "https://example.org/1");
  outputs = (text "url", record { value = text "1"; secret = true }) ∷ [];
}

abbrev ups : Stream UpResult
ups = ok (some event_response) ∷ ok (some (result up_result)) ∷ ok none ∷ []

abbrev others : Stream OperationResult
others =
    ok (some (result (record { stdout = text "out"; stderr = []; permalink = none })))
    ∷ err (record { code = 13; status_message = text "failed" })
    ∷ []

-- Every call succeeds.
abbrev agent : Agent
agent = record {
  on_select_stack = λ n a h. ok tt;
  on_set_all_config = λ c a h. ok tt;
  on_up = λ r h. ok ups;
  on_preview = λ r h. ok others;
  on_destroy = λ r h. ok others;
  on_refresh = λ r h. ok others;
  code_name = λ c. text "Internal";
}

abbrev runtime : Runtime
runtime = record {
  agent = agent;
  lossy = λ t. t;
  to_json = λ e. some (text "{}");
  source_text = [];
  interrupted = λ d h. none;
}

drain-Summary_example :
    (drain store_up ups default_result
      ≡ ended (first_error ups) (keep store_up (last_result ups) default_result))
    × (drain store_result others default_result
        ≡ ended (first_error others) (keep store_result (last_result others) default_result))
drain-Summary_example = drain-Summary ups others

abbrev config : Option (List (Text × Text))
config = some ((text "app:size", text "2") ∷ [])

abbrev drained : StreamResult
drained = record {
  permalink = up_result.permalink;
  stdout = up_result.stdout;
  stderr = up_result.stderr;
  outputs = up_result.outputs;
  error = none;
}

-- The stack is locked at the first attempt to select it.
abbrev locked_once : Agent
locked_once = record agent {
  on_select_stack = λ name attempt h.
      if attempt == 0
      then err (record { code = 2; status_message = text "the stack is currently locked" })
      else ok tt;
}

abbrev selecting_update : Update
selecting_update = record up_update {
  spec = record up_update.spec { stack_name = some (text "org/app/dev") };
}

streams :
    (stream_update env locked_once (text "app:50051") selecting_update config start).0 ≡ ok drained
unfolding stream_update continue lift read return retry_on_lock is_lock_error or_panic contains text
streams = refl

stream_update-calls_example :
    Called locked_once selecting_update.spec config (calls start.effects) (
      calls
        (stream_update env locked_once (text "app:50051") selecting_update config start).1.effects)
stream_update-calls_example =
    stream_update-calls env locked_once (text "app:50051") selecting_update config start drained
      streams

-- The status of an Update to which a patch is applied.
abbrev patched : UpdatePatch → UpdateStatus
patched p = record update_status {
  permalink = p.permalink;
  outputs = p.outputs;
  conditions = p.conditions;
}

abbrev env_with : UpdatePatch → Env
env_with p = record env {
  get_update = λ ns name h. ok (record up_update { status = some (patched p) });
}

final_patch-check_update_example :
    (check_update
      (env_with (final_patch runtime (text "t") (text "u") (ok drained)))
      (text "default")
      (text "app-1")
      start).0
    ≡ verdict runtime (ok drained)
final_patch-check_update_example =
    let p = final_patch runtime (text "t") (text "u") (ok drained) in
    final_patch-check_update (env_with p) runtime (text "default") (text "app-1") (text "t")
      (text "u") (ok drained) (record up_update { status = some (patched p) }) (patched p) start
      refl refl (record { conditions = refl; permalink = refl; outputs = refl })

progressing-Orphaned_example :
    NoTask
      (on_apply (record up_update { status = some (patched (progressing_patch (text "t"))) }) []).0
    × ((check_update
          (env_with (progressing_patch (text "t")))
          (text "default")
          (text "app-1")
          start).0
        ≡ ok in_progress)
progressing-Orphaned_example =
    let p = progressing_patch (text "t") in
    progressing-Orphaned (env_with p) (text "default") (text "app-1") (text "t")
      (record up_update { status = some (patched p) }) (patched p) [] start refl refl
      (record { conditions = refl; permalink = refl; outputs = refl })

-- An Update without a status.
abbrev app_update : Update
app_update = record up_update { status = none }

Reach-Exclusive_example : Exclusive (observe app_update (record { in_progress = []; tasks = [] }))
Reach-Exclusive_example = Reach-Exclusive (later at_start (observed app_update))
