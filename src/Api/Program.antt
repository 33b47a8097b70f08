-- ===== src/Api/Program.antt =====
-- src/api/program.rs: the Program resource. A map is an association list.
use pulumi_rs_kube_operator.Base.{Bool, Text, text, List, [], Option, none, some, ℤ}
use pulumi_rs_kube_operator.Api.Meta.{ObjectMeta}
use pulumi_rs_kube_operator.Api.Json.{JsonValue}

pub record Artifact : Type 0 where
  pub path : Text
  pub url : Text
  pub revision : Text
  pub digest : Option Text
  pub last_update_time : Text
  pub size : Option ℤ
  pub metadata : Option (List (Text × Text))

pub record ProgramStatus : Type 0 where
  pub observed_generation : ℤ
  pub artifact : Option Artifact

pub data ConfigType : Type 0 where
  config_string config_number config_list_number config_list_string : ConfigType

pub record Configuration : Type 0 where
  pub config_type : Option ConfigType
  pub default : Option JsonValue

pub record CustomTimeouts : Type 0 where
  pub create : Option Text
  pub delete : Option Text
  pub update : Option Text

pub record ResourceOptions : Type 0 where
  pub additional_secret_outputs : List Text
  pub aliases : List Text
  pub custom_timeouts : Option CustomTimeouts
  pub delete_before_replace : Bool
  pub depends_on : List JsonValue
  pub ignore_changes : List Text
  pub import : Option Text
  pub parent : Option JsonValue
  pub protect : Bool
  pub provider : Option JsonValue
  pub providers : Option (List (Text × JsonValue))
  pub version : Option Text

pub record Getter : Type 0 where
  pub id : Text
  pub state : Option (List (Text × JsonValue))

pub record Resource : Type 0 where
  pub resource_type : Text
  pub properties : Option (List (Text × JsonValue))
  pub options : Option ResourceOptions
  pub get : Option Getter

pub record ProgramSpec : Type 0 where
  pub configuration : Option (List (Text × Configuration))
  pub resources : Option (List (Text × Resource))
  pub variables : Option (List (Text × JsonValue))
  pub outputs : Option (List (Text × JsonValue))
  pub packages : Option (List (Text × Text))

pub record ProgramTypeMeta : Type 0 where
  pub api_version : Option Text
  pub kind : Option Text

pub record Program : Type 0 where
  pub types : Option ProgramTypeMeta
  pub metadata : ObjectMeta
  pub spec : ProgramSpec
  pub status : Option ProgramStatus

-- `Program::new`
unfoldable pub new_program : Text → ProgramSpec → Program
new_program name spec = record {
  types = some (record { api_version = some (text "pulumi.com/v1"); kind = some (text "Program") });
  metadata = record {
    name = some name;
    namespace = none;
    uid = none;
    generation = none;
    deletion_timestamp = none;
    finalizers = none;
    annotations = [];
    owner_references = [];
  };
  spec = spec;
  status = none;
}
