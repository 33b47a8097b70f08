-- ===== src/Operator/Effects.antt =====
-- What the operator does to the outside, and what it learns from there. An effect is recorded in
-- a history, newest first. Kubernetes, the informers, the agent and the clocks are an `Env`: each
-- answer may depend on all that happened before, and each read counts as an event of its own, so
-- two reads of the same object may differ, as they do when others write to the cluster.
use pulumi_rs_kube_operator.Base.{
  ℕ, suc, Bool, Option, none, some, List, [], ◌∷◌, Text, Result, Instant, Duration,
}
use pulumi_rs_kube_operator.Errors.{OperatorError}
use pulumi_rs_kube_operator.Api.Stack.{Stack}
use pulumi_rs_kube_operator.Api.Update.{Update}
use pulumi_rs_kube_operator.Api.Program.{Program, ProgramStatus}
use pulumi_rs_kube_operator.Api.Workspace.{Workspace}
use pulumi_rs_kube_operator.Api.Meta.{OwnerReference}
use pulumi_rs_kube_operator.Operator.Messages.{Priority, ReconcileTrigger, StackMessage, NameKey}
use pulumi_rs_kube_operator.Operator.Events.{StackEvent, Metric}
use pulumi_rs_kube_operator.Operator.Status.{StatusPatch, UpdatePatch}
use pulumi_rs_kube_operator.Controllers.Protocol.{Call}
use pulumi_rs_kube_operator.Controllers.Secret.{Secret}

-- `kube::Error`: the API server's answer with its code, or any other failure.
pub data KubeError : Type 0 where
  api : (code : ℕ) → KubeError
  other_error : KubeError

pub data Effect : Type 0 where
  apply_stack_finalizer : NameKey → Effect
  set_stack_finalizers : NameKey → List Text → Effect
  patch_stack_status : NameKey → StatusPatch → Effect
  create_update : Update → Effect
  clear_update_finalizers delete_update : (ns name : Text) → Effect
  apply_program_finalizer : (ns name : Text) → Effect
  create_workspace : NameKey → OwnerReference → Effect
  apply_statefulset apply_service : (ns name : Text) → Effect
  delete_workspace delete_kustomization : (ns name : Text) → Effect
  cancel_update : (address : Text) → Effect
  metric : Metric → Effect
  event : StackEvent → Effect
  requeue : Duration → Priority → ReconcileTrigger → Effect
  sleep : Duration → Effect
  agent_call : Call → Effect
  patch_update_status : (ns name : Text) → UpdatePatch → Effect
  create_secret : Secret → Effect
  set_program_finalizers : (ns name : Text) → List Text → Effect
  patch_program_status : (ns name : Text) → ProgramStatus → Effect
  dispatch : NameKey → StackMessage → Effect

pub record History : Type 0 where
  pub effects : List Effect
  pub reads : ℕ

abbrev pub head_effect : List Effect → Option Effect
head_effect [] = none
head_effect (e ∷ es) = some e

-- The last effect so far.
abbrev pub newest : History → Option Effect
newest h = head_effect h.effects

-- What comes of a request for a token to the metadata server (reconcile/project.rs,
-- `get_gcp_access_token`): no answer, a refusal, no JSON, or a body that may have the token.
pub data TokenReply : Type 0 where
  token_unsent token_unparsed : (message : Text) → TokenReply
  token_refused : (status : Text) → TokenReply
  token_body : (access_token : Option Text) → TokenReply

-- The answer of the cloud provider's project API (reconcile/project.rs, `check_gcp_project`).
pub data GcpReply : Type 0 where
  no_token request_failed : (message : Text) → GcpReply
  response : (status : ℕ) → (state : Option Text) → GcpReply

abbrev pub Kube : Type 0 → Type 0
Kube A = Result KubeError A

pub record Env : Type 0 where
  pub answer : Effect → History → Kube (Unit {0})
  pub get_stack : NameKey → History → Kube Stack
  pub get_update : (ns name : Text) → History → Kube Update
  pub list_updates : (ns : Text) → History → Kube (List Update)
  pub get_program : (ns name : Text) → History → Kube Program
  pub get_workspace : (ns name : Text) → History → Kube Workspace
  pub ready_replicas : (ns name : Text) → History → Kube (Option ℕ)
  pub flux_revision : (ns group version kind plural name : Text) → History → Kube (Option Text)
  pub store_stack : (ns name : Text) → History → Option Stack
  pub store_program : (ns name : Text) → History → Option Program
  pub gcp_token : History → TokenReply
  pub gcp_project : (token project_id : Text) → History → GcpReply
  pub connect : (address : Text) → History → Bool
  pub cancel_ok : (address : Text) → History → Bool
  pub instant : History → Instant
  pub utc : History → Instant
  pub parse_rfc3339 : Text → Option Instant
  pub to_rfc3339 : Instant → Text
  pub timestamp : Instant → Text
  pub is_json : Text → Bool
  pub localhost : Option Text

abbrev pub M : Type 0 → Type 0
M A = History → A × History

-- Why a step did not return: an error that it returned, or a panic, which ends the process
-- (`panic = "abort"` in the release profile).
pub data Fault : Type 0 where
  raised : OperatorError → Fault
  panicked : Fault

abbrev pub Op : Type 0 → Type 0
Op A = M (Result Fault A)

-- Record an effect whose outcome is not looked at, or cannot fail.
unfoldable pub perform : Effect → M (Unit {0})
perform e h = (tt, record h { effects = e ∷ h.effects })

-- Send a request that writes; the answer is the environment's.
unfoldable pub request : Env → Effect → M (Kube (Unit {0}))
request env e h = (env.answer e h, record h { effects = e ∷ h.effects })

-- Read something of the environment.
unfoldable pub read : {A : Type 0} → (History → A) → M A
read f h = (f h, record h { reads = suc h.reads })

module _ {A B : Type 0} where
  infixl 5 ◌>>=◌ ◌>>◌
  abbrev pub ◌>>=◌ : M A → (A → M B) → M B
  ◌>>=◌ m f h = let (a, h') = m h in f a h'

  abbrev pub ◌>>◌ : M A → M B → M B
  m >> k = m >>= λ _. k

unfoldable pub pure : {A : Type 0} → A → M A
pure a h = (a, h)
