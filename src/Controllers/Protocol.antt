-- ===== src/Controllers/Protocol.antt =====
-- src/proto/agent.proto: the messages between the operator and a workspace agent, as far as
-- src/operator/controllers/update.rs fills them in or reads them.
use pulumi_rs_kube_operator.Base.{Bool, Text, List, Option, ℤ}

pub record ConfigItem : Type 0 where
  pub key : Text
  pub value : Text

pub record UpRequest : Type 0 where
  pub parallel : Option ℤ
  pub message : Option Text
  pub expect_no_changes : Option Bool
  pub replace : List Text
  pub target : List Text
  pub target_dependents : Option Bool
  pub refresh : Option Bool
  pub continue_on_error : Option Bool

pub record PreviewRequest : Type 0 where
  pub parallel : Option ℤ
  pub message : Option Text
  pub expect_no_changes : Option Bool
  pub replace : List Text
  pub target : List Text
  pub target_dependents : Option Bool
  pub refresh : Option Bool

pub record DestroyRequest : Type 0 where
  pub parallel : Option ℤ
  pub message : Option Text
  pub target : List Text
  pub target_dependents : Option Bool
  pub refresh : Option Bool
  pub continue_on_error : Option Bool
  pub remove : Option Bool

pub record RefreshRequest : Type 0 where
  pub parallel : Option ℤ
  pub message : Option Text
  pub expect_no_changes : Option Bool
  pub target : List Text

-- The requests that the operator sends to carry out an Update, in the order of the steps.
pub data Call : Type 0 where
  install : Call
  select_stack : (stack_name : Text) (create : Option Bool) → Call
  set_all_config : (config : List ConfigItem) → Call
  run_up : UpRequest → Call
  run_preview : PreviewRequest → Call
  run_destroy : DestroyRequest → Call
  run_refresh : RefreshRequest → Call

pub record OutputValue : Type 0 where
  pub value : Text
  pub secret : Bool

-- `map<string, OutputValue>`, in the order in which the map is iterated.
abbrev pub Outputs : Type 0
Outputs = List (Text × OutputValue)

pub record UpResult : Type 0 where
  pub stdout : Text
  pub stderr : Text
  pub permalink : Option Text
  pub outputs : Outputs

-- The results of preview, destroy and refresh have the same fields.
pub record OperationResult : Type 0 where
  pub stdout : Text
  pub stderr : Text
  pub permalink : Option Text

-- What a message of the stream carries, of which some carry nothing.
pub data Response (R : Type 0) : Type 0 where
  event_response : Response R
  result : R → Response R

abbrev pub Frame : Type 0 → Type 0
Frame R = Option (Response R)

-- The config of a stack, with its values as the strings that are sent.
abbrev pub Config : Type 0
Config = Option (List (Text × Text))
