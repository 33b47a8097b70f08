-- ===== src/Controllers/StreamUpdate.antt =====
-- src/operator/controllers/update.rs, `stream_update`: the calls of the workspace agent that carry
-- out an Update. What the agent answers is an `Agent`; the connection is the pool's.
pub mod Drain
pub mod Calls
use pulumi_rs_kube_operator.Base.{
  ℕ, zero, suc, ◌||◌, Bool, true, false, Option, none, some, and_then, List, [], ◌∷◌, ◌++◌, map,
  Result, ok, err, Text, text, Duration, ◌==◌, if◌then◌else◌,
}
use pulumi_rs_kube_operator.Errors.{
  OperatorError, transient, permanent, lock, connection_failed, agent_retriable, spec_invalid,
  update_conflict,
}
use pulumi_rs_kube_operator.Core.Lock.{Status, is_lock_error, unavailable, retry_on_lock}
use pulumi_rs_kube_operator.Api.Update.{
  Update, UpdateSpec, UpdateType, up, preview, destroy, refresh_only,
}
use pulumi_rs_kube_operator.Operator.Effects.{Env, History, M, Op, read, perform, agent_call, sleep}
use pulumi_rs_kube_operator.Operator.Fallible.{
  ◌>>=◌, ◌>>◌, return, throw, lift, or_panic, of_result,
}
use pulumi_rs_kube_operator.Reconcile.CheckUpdate.{truncate_message}
use pulumi_rs_kube_operator.Controllers.Protocol.{
  Config, ConfigItem, UpRequest, PreviewRequest, DestroyRequest, RefreshRequest, Call, install,
  select_stack, set_all_config, run_up, run_preview, run_destroy, run_refresh, Outputs, UpResult,
  OperationResult, Response, event_response, result, Frame,
}

-- A stream that ends.
abbrev pub Stream : Type 0 → Type 0
Stream R = List (Result Status (Frame R))

-- The generated client: its answers, where the attempt of a repeated call has a number, and the
-- names that tonic prints for status codes.
pub record Agent : Type 0 where
  pub on_select_stack : (stack_name : Text) (attempt : ℕ) → History → Result Status (Unit {0})
  pub on_set_all_config : List ConfigItem → (attempt : ℕ) → History → Result Status (Unit {0})
  pub on_up : UpRequest → History → Result Status (Stream UpResult)
  pub on_preview : PreviewRequest → History → Result Status (Stream OperationResult)
  pub on_destroy : DestroyRequest → History → Result Status (Stream OperationResult)
  pub on_refresh : RefreshRequest → History → Result Status (Stream OperationResult)
  pub code_name : ℕ → Text

pub record StreamResult : Type 0 where
  pub permalink : Option Text
  pub stdout : Text
  pub stderr : Text
  pub outputs : Outputs
  pub error : Option Text

-- `StreamResult::default()`
abbrev pub default_result : StreamResult
default_result = record { permalink = none; stdout = []; stderr = []; outputs = []; error = none }

abbrev pub deadline_exceeded : ℕ
deadline_exceeded = 4

abbrev pub aborted : ℕ
aborted = 10

unfoldable pub map_grpc_error : Agent → Status → OperatorError
map_grpc_error agent status =
    if status.code == unavailable || status.code == deadline_exceeded
    then transient connection_failed
    else if status.code == aborted
    then lock update_conflict
    else if is_lock_error status.status_message
    then lock update_conflict
    else transient
        (agent_retriable (agent.code_name status.code ++ text ": " ++ status.status_message))

unfoldable pub grpc : {A : Type 0} → Agent → Result Status A → Op A
unfolding map_grpc_error
grpc agent (ok a) = return a
grpc agent (err e) = throw (map_grpc_error agent e)

-- The requests of a retry loop with its pauses: a pause comes after an attempt that found a lock, and
-- the next attempt after it, if any is left.
unfoldable pub attempts : Call → (remaining : ℕ) → List Duration → M (Unit {0})
attempts call zero pauses h = (tt, h)
attempts call (suc n) [] h = perform (agent_call call) h
attempts call (suc n) (d ∷ ds) h =
    attempts call n ds (perform (sleep d) (perform (agent_call call) h).1).1

abbrev pub max_attempts : ℕ
max_attempts = 10

-- `retry_on_lock(name, 10, || call).await.map_err(map_grpc_error)?`
unfoldable pub retried : {A : Type 0} → Agent → Text → Call → (ℕ → History → Result Status A) → Op A
unfolding attempts grpc
retried agent operation call answer = do
  (r, pauses) ← lift (read (λ h. retry_on_lock operation max_attempts (λ n. answer n h)))
  lift (attempts call max_attempts pauses)
  grpc agent r

unfoldable pub select : Agent → Option Text → Op (Unit {0})
unfolding retried
select agent none = return tt
select agent (some stack_name) =
    retried agent (text "SelectStack") (select_stack stack_name (some true))
      (agent.on_select_stack stack_name)

unfoldable pub config_items : List (Text × Text) → List ConfigItem
config_items cfg = map (λ e. record { key = e.0; value = e.1 }) cfg

unfoldable pub set_config : Agent → Config → Op (Unit {0})
unfolding retried
set_config agent none = return tt
set_config agent (some []) = return tt
set_config agent (some (c ∷ cs)) =
    let items = config_items (c ∷ cs) in
    retried agent (text "SetAllConfig") (set_all_config items) (agent.on_set_all_config items)

-- The loop over a stream; the result is none if the cut of the error's message panics.
unfoldable pub drain :
    {R : Type 0} → (R → StreamResult → StreamResult) → Stream R → StreamResult → Option StreamResult
drain store [] r = some r
drain store (ok none ∷ rest) r = drain store rest r
drain store (ok (some event_response) ∷ rest) r = drain store rest r
drain store (ok (some (result res)) ∷ rest) r = drain store rest (store res r)
drain store (err e ∷ rest) r =
    and_then (truncate_message e.status_message) (λ m. some (record r { error = some m }))

unfoldable pub store_up : UpResult → StreamResult → StreamResult
store_up res r = record {
  permalink = res.permalink;
  stdout = res.stdout;
  stderr = res.stderr;
  outputs = res.outputs;
  error = r.error;
}

unfoldable pub store_result : OperationResult → StreamResult → StreamResult
store_result res r = record {
  permalink = res.permalink;
  stdout = res.stdout;
  stderr = res.stderr;
  outputs = r.outputs;
  error = r.error;
}

-- Send the request that opens a stream, and read the stream to its end.
unfoldable pub stream :
    {R : Type 0}
    → Agent
    → Call
    → (History → Result Status (Stream R))
    → (R → StreamResult → StreamResult)
    → Op StreamResult
unfolding grpc drain
stream agent call answer store = do
  lift (perform (agent_call call))
  reply ← lift (read answer)
  frames ← grpc agent reply
  or_panic (drain store frames default_result)

unfoldable pub up_request : UpdateSpec → UpRequest
up_request spec = record {
  parallel = spec.parallel;
  message = spec.message;
  expect_no_changes = spec.expect_no_changes;
  replace = spec.replace;
  target = spec.target;
  target_dependents = spec.target_dependents;
  refresh = spec.refresh;
  continue_on_error = spec.continue_on_error;
}

unfoldable pub preview_request : UpdateSpec → PreviewRequest
preview_request spec = record {
  parallel = spec.parallel;
  message = spec.message;
  expect_no_changes = spec.expect_no_changes;
  replace = spec.replace;
  target = spec.target;
  target_dependents = spec.target_dependents;
  refresh = spec.refresh;
}

unfoldable pub destroy_request : UpdateSpec → DestroyRequest
destroy_request spec = record {
  parallel = spec.parallel;
  message = spec.message;
  target = spec.target;
  target_dependents = spec.target_dependents;
  refresh = spec.refresh;
  continue_on_error = spec.continue_on_error;
  remove = spec.remove;
}

unfoldable pub refresh_request : UpdateSpec → RefreshRequest
refresh_request spec = record {
  parallel = spec.parallel;
  message = spec.message;
  expect_no_changes = spec.expect_no_changes;
  target = spec.target;
}

unfoldable pub run_operation : Agent → UpdateSpec → Option UpdateType → Op StreamResult
unfolding stream up_request preview_request destroy_request refresh_request store_up store_result
run_operation agent spec none = throw (permanent (spec_invalid (text "type")))
run_operation agent spec (some up) =
    let req = up_request spec in stream agent (run_up req) (agent.on_up req) store_up
run_operation agent spec (some preview) =
    let req = preview_request spec in
    stream agent (run_preview req) (agent.on_preview req) store_result
run_operation agent spec (some destroy) =
    let req = destroy_request spec in
    stream agent (run_destroy req) (agent.on_destroy req) store_result
run_operation agent spec (some refresh_only) =
    let req = refresh_request spec in
    stream agent (run_refresh req) (agent.on_refresh req) store_result

-- `mgr.pool.lend(address).await?`
unfoldable pub lend_channel : Env → Text → Op (Unit {0})
lend_channel env address = do
  connected ← lift (read (env.connect address))
  if connected then return tt else throw (transient connection_failed)

unfoldable pub stream_update : Env → Agent → Text → Update → Config → Op StreamResult
unfolding lend_channel select set_config run_operation
stream_update env agent address update config = do
  lend_channel env address
  lift (perform (agent_call install))
  select agent update.spec.stack_name
  set_config agent config
  run_operation agent update.spec update.spec.update_type
