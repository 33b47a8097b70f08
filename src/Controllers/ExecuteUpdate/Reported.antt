-- ===== src/Controllers/ExecuteUpdate/Reported.antt =====
-- src/operator/controllers/mod.rs, `execute_update`: how its run can end.
use pulumi_rs_kube_operator.Base.{
  suc, Option, none, some, List, ◌∷◌, Result, ok, err, Text, ◌≡◌, ◌⊎◌,
}
use pulumi_rs_kube_operator.Errors.{OperatorError, transient, operation_timeout}
use pulumi_rs_kube_operator.Api.Meta.{OwnerReference}
use pulumi_rs_kube_operator.Api.Update.{Update}
use pulumi_rs_kube_operator.Operator.Messages.{reconcile, update_completed}
use pulumi_rs_kube_operator.Operator.Effects.{
  Env, History, Effect, Kube, KubeError, Fault, panicked, patch_update_status, dispatch,
}
use pulumi_rs_kube_operator.Actors.Requests.{workspace_address}
use pulumi_rs_kube_operator.Controllers.Protocol.{Config}
use pulumi_rs_kube_operator.Controllers.StreamUpdate.{StreamResult, stream_update}
use pulumi_rs_kube_operator.Controllers.ExecuteUpdate.{
  Runtime, stack_owner, progressing_patch, final_patch, caught,
}

-- The effects with the message to the stack's actor.
abbrev pub notices : Text → Option OwnerReference → List Effect → List Effect
notices ns none es = es
notices ns (some o) es =
    dispatch (record { ns = ns; name = o.name }) (reconcile update_completed) ∷ es

module _ (env : Env) (rt : Runtime) (ns update_name workspace_name : Text) (update : Update) where
  -- The stream of the Update.
  abbrev pub streamed : Config → History → Result Fault StreamResult
  streamed config start =
      let address = workspace_address env (record { ns = ns; name = workspace_name }) in
      (stream_update env rt.agent address update config start).0

  -- An outcome is the stream's, or that of a wait that was stopped.
  abbrev pub Source : Config → History → Result Fault (Result OperatorError StreamResult) → Type 0
  Source config start outcome =
      (outcome ≡ caught (streamed config start))
      ⊎ (outcome ≡ ok (err (transient operation_timeout)))

  -- The last effects are the status that is written for an outcome, and the message to the actor of
  -- the stack, if one owns the Update.
  pub record Reported (e : Result Fault (Unit {0}) × History) : Type 0 where
    pub returned : e.0 ≡ ok tt
    pub config : Config
    pub start : History
    pub outcome : Result OperatorError StreamResult
    pub source : Source config start (ok outcome)
    pub now : Text
    pub end_time : Text
    pub before : List Effect
    pub effects :
        e.1.effects
        ≡ notices ns
            (stack_owner update)
            (patch_update_status ns update_name (final_patch rt now end_time outcome) ∷ before)

  -- The first request of the task: the status that says that the Update is progressing.
  abbrev pub first_patch : History → Effect
  first_patch h =
      patch_update_status ns update_name (progressing_patch (env.to_rfc3339 (env.utc h)))

  -- What is answered to it.
  abbrev pub first_answer : History → Kube (Unit {0})
  first_answer h = env.answer (first_patch h) (record h { reads = suc h.reads })

  -- It was refused, and nothing else was done.
  pub record Refused (h : History) (e : Result Fault (Unit {0}) × History) : Type 0 where
    pub error : KubeError
    pub refusal : first_answer h ≡ err error
    pub returned : e.0 ≡ ok tt
    pub effects : e.1.effects ≡ first_patch h ∷ h.effects

  -- The stream panicked.
  pub record Crashed (e : Result Fault (Unit {0}) × History) : Type 0 where
    pub panics : e.0 ≡ err panicked
    pub config : Config
    pub start : History
    pub stream_panics : streamed config start ≡ err panicked

  -- How the task can end.
  pub data Ending (h : History) (e : Result Fault (Unit {0}) × History) : Type 0 where
    refused : Refused h e → Ending h e
    reported : first_answer h ≡ ok tt → Reported e → Ending h e
    crashed : first_answer h ≡ ok tt → Crashed e → Ending h e
