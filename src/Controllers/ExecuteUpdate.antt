-- ===== src/Controllers/ExecuteUpdate.antt =====
-- src/operator/controllers/mod.rs, `execute_update`: the task that carries out an Update and writes
-- its status. A panic ends the process.
pub mod Verdict
pub mod Reported
use pulumi_rs_kube_operator.Base.{
  Bool, true, false, Option, none, some, or_else, and_then, List, [], ◌∷◌, map, find, Result, ok,
  err, Text, text, text_eq, ℤ, pos, pos_part, Instant, Duration, from_secs, leb, if◌then◌else◌,
}
use pulumi_rs_kube_operator.Errors.{OperatorError, transient, operation_timeout, display}
use pulumi_rs_kube_operator.Api.Meta.{OwnerReference}
use pulumi_rs_kube_operator.Api.Conditions.{
  Condition, update_complete, update_failed, update_progressing,
}
use pulumi_rs_kube_operator.Api.Stack.{Stack}
use pulumi_rs_kube_operator.Api.Update.{Update, UpdateType, up, preview, destroy, refresh_only}
use pulumi_rs_kube_operator.Operator.Messages.{NameKey, reconcile, update_completed}
use pulumi_rs_kube_operator.Operator.Status.{UpdatePatch}
use pulumi_rs_kube_operator.Operator.Effects.{
  Env, History, M, Op, Kube, Fault, raised, panicked, read, perform, request, patch_update_status,
  create_secret, dispatch,
}
use pulumi_rs_kube_operator.Operator.Fallible.{◌>>=◌, ◌>>◌, return, lift}
use pulumi_rs_kube_operator.Actors.Requests.{workspace_address}
use pulumi_rs_kube_operator.Controllers.Protocol.{Outputs, Config}
use pulumi_rs_kube_operator.Controllers.Secret.{collect, build_output_secret, Entries}
use pulumi_rs_kube_operator.Controllers.StreamUpdate.{Agent, StreamResult, stream_update}

-- The rest of what the task relies on: `String::from_utf8_lossy`, `serde_json::to_string` of a map,
-- what an error of the client library prints, and tokio's `timeout`, which at a moment of its own
-- stops what it waits for.
pub record Runtime : Type 0 where
  pub agent : Agent
  pub lossy : Text → Text
  pub to_json : Entries → Option Text
  pub source_text : Text
  pub interrupted : Duration → History → Option History

-- `owner_references().iter().find(|o| o.kind == "Stack")`
unfoldable pub stack_owner : Update → Option OwnerReference
stack_owner update = find (λ o. text_eq o.kind (text "Stack")) update.metadata.owner_references

-- A condition of the patches; `observedGeneration` is left out, which is read as 0.
unfoldable pub update_condition : Text → Text → Text → Option Text → Text → Condition
update_condition type_ status reason message now = record {
  type_ = type_;
  status = status;
  reason = some reason;
  message = message;
  last_transition_time = some now;
  observed_generation = pos 0;
}

unfoldable pub progressing_patch : (now : Text) → UpdatePatch
unfolding update_condition
progressing_patch now = record {
  start_time = now;
  end_time = none;
  permalink = none;
  message = none;
  outputs = none;
  conditions =
      update_condition update_progressing (text "True") (text "UpdateStarted")
        (some (text "Connecting to workspace agent")) now
      ∷ [];
}

unfoldable pub failed_update_patch : (now end_time message : Text) → UpdatePatch
unfolding update_condition
failed_update_patch now end_time message = record {
  start_time = now;
  end_time = some end_time;
  permalink = none;
  message = some message;
  outputs = none;
  conditions =
      update_condition update_progressing (text "False") (text "UpdateComplete") none end_time
      ∷ update_condition update_complete (text "True") (text "UpdateFailed") (some message) end_time
      ∷ update_condition update_failed (text "True") (text "UpdateFailed") (some message) end_time
      ∷ [];
}

-- The outputs as the JSON text of a sorted map.
unfoldable pub outputs_json : Runtime → Outputs → Option Text
outputs_json rt [] = none
outputs_json rt (o ∷ os) = rt.to_json (collect rt.lossy [] (o ∷ os))

unfoldable pub success_patch : Runtime → (now end_time : Text) → StreamResult → UpdatePatch
unfolding update_condition outputs_json
success_patch rt now end_time r = record {
  start_time = now;
  end_time = some end_time;
  permalink = r.permalink;
  message = none;
  outputs = outputs_json rt r.outputs;
  conditions =
      update_condition update_progressing (text "False") (text "UpdateComplete") none end_time
      ∷ update_condition update_complete (text "True") (text "UpdateSucceeded")
          (some (text "Update completed successfully")) end_time
      ∷ [];
}

-- The status that is written for an outcome.
unfoldable pub final_patch :
    Runtime → (now end_time : Text) → Result OperatorError StreamResult → UpdatePatch
unfolding failed_update_patch success_patch
final_patch rt now end_time (ok r) = elim r.error [
  | some message ↦ failed_update_patch now end_time message
  | none ↦ success_patch rt now end_time r
]
final_patch rt now end_time (err e) = failed_update_patch now end_time (display rt.source_text e)

-- `Stack.spec.operation_timeout_seconds.max(60)`
unfoldable pub operation_timeout_of : Stack → Duration
operation_timeout_of stack = from_secs (
    if leb 60 (pos_part stack.spec.operation_timeout_seconds)
    then pos_part stack.spec.operation_timeout_seconds
    else 60)

unfoldable pub settings_of : Kube Stack → Config × Duration
unfolding operation_timeout_of
settings_of (ok s) = (s.spec.config, operation_timeout_of s)
settings_of (err e) = (none, from_secs 3600)

unfoldable pub stack_settings : Env → Text → Option OwnerReference → M (Config × Duration)
unfolding settings_of
stack_settings env ns none h = ((none, from_secs 3600), h)
stack_settings env ns (some o) h =
    let (reply, h') = read (env.get_stack (record { ns = ns; name = o.name })) h in
    (settings_of reply, h')

-- An error that the step returned is a value; a panic is not caught.
unfoldable pub caught : {A : Type 0} → Result Fault A → Result Fault (Result OperatorError A)
caught (ok a) = ok (ok a)
caught (err (raised e)) = ok (err e)
caught (err panicked) = err panicked

-- `tokio::time::timeout(limit, step)`, with the error that its expiry leads to.
unfoldable pub with_timeout : {A : Type 0} → Runtime → Duration → Op A → Op (Result OperatorError A)
unfolding caught
with_timeout rt limit step h = elim (rt.interrupted limit h) [
  | some h' ↦ (ok (err (transient operation_timeout)), h')
  | none ↦ let (r, h') = step h in (caught r, h')
]

unfoldable pub is_up : Option UpdateType → Bool
is_up (some up) = true
is_up (some preview) = false
is_up (some destroy) = false
is_up (some refresh_only) = false
is_up none = false

unfoldable pub update_owner_ref : Text → Update → OwnerReference
update_owner_ref update_name update = record {
  api_version = text "auto.pulumi.com/v1alpha1";
  kind = text "Update";
  name = update_name;
  uid = or_else update.metadata.uid [];
  controller = some true;
  block_owner_deletion = some false;
}

-- The Secret with the outputs; that it cannot be created is only logged.
unfoldable pub store_outputs :
    Env
    → Runtime
    → (ns update_name : Text) → Update
    → Result OperatorError StreamResult
    → Op (Unit {0})
unfolding is_up update_owner_ref
store_outputs env rt ns update_name update (err e) = return tt
store_outputs env rt ns update_name update (ok r) = elim r.error [
  | some message ↦ return tt
  | none ↦ elim r.outputs [
    | [] ↦ return tt
    | o ∷ os ↦
        if is_up update.spec.update_type
        then (do
          lift (
              request env (
                create_secret (
                  build_output_secret rt.lossy update_name ns (o ∷ os) []
                    (update_owner_ref update_name update))))
          return tt)
        else return tt
  ]
]

-- Tell the actor of the stack.
unfoldable pub notify_owner : (ns : Text) → Option OwnerReference → Op (Unit {0})
notify_owner ns none = return tt
notify_owner ns (some o) =
    lift (perform (dispatch (record { ns = ns; name = o.name }) (reconcile update_completed)))

-- The steps after the stream has come to an outcome.
unfoldable pub conclude :
    Env
    → Runtime
    → (ns update_name now : Text) → Update
    → Result OperatorError StreamResult
    → Op (Unit {0})
unfolding stack_owner store_outputs final_patch notify_owner
conclude env rt ns update_name now update outcome = do
  end_time ← lift (read env.utc)
  store_outputs env rt ns update_name update outcome
  lift (
      request env
        (patch_update_status ns update_name (final_patch rt now (env.to_rfc3339 end_time) outcome)))
  notify_owner ns (stack_owner update)

-- The steps after the status says that the Update is progressing.
unfoldable pub carry_out :
    Env → Runtime → (ns update_name workspace_name now : Text) → Update → Op (Unit {0})
unfolding stack_settings with_timeout conclude
carry_out env rt ns update_name workspace_name now update = do
  let address = workspace_address env (record { ns = ns; name = workspace_name })
  (config, limit) ← lift (stack_settings env ns (stack_owner update))
  outcome ← with_timeout rt limit (stream_update env rt.agent address update config)
  conclude env rt ns update_name now update outcome

unfoldable pub execute_update :
    Env → Runtime → (ns update_name workspace_name : Text) → Update → Op (Unit {0})
unfolding progressing_patch carry_out
execute_update env rt ns update_name workspace_name update = do
  start ← lift (read env.utc)
  let now = env.to_rfc3339 start
  reply ← lift (request env (patch_update_status ns update_name (progressing_patch now)))
  elim reply [
    | err e ↦ return tt
    | ok _ ↦ carry_out env rt ns update_name workspace_name now update
  ]
