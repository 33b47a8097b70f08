-- ===== src/Api/Stack.antt =====
-- src/api/stack.rs: the Stack resource. A value of the configuration is the text that is sent of it;
-- the namespace of a selected Secret, which the operator does not use, is left out.
use pulumi_rs_kube_operator.Base.{Text, Bool, List, Option, ℤ}
use pulumi_rs_kube_operator.Api.Meta.{ObjectMeta}
use pulumi_rs_kube_operator.Api.Json.{JsonValue}
use pulumi_rs_kube_operator.Api.Conditions.{Condition}

pub record FluxSourceReference : Type 0 where
  pub api_version : Text
  pub kind : Text
  pub name : Text

pub record FluxSource : Type 0 where
  pub source_ref : FluxSourceReference
  pub dir : Option Text

pub record ProgramReference : Type 0 where
  pub name : Text

pub record RequirementSpec : Type 0 where
  pub succeeded_within_duration : Option Text

pub record PrerequisiteRef : Type 0 where
  pub name : Text
  pub requirement : Option RequirementSpec

pub data WorkspaceReclaimPolicy : Type 0 where
  retain_workspace delete_workspace : WorkspaceReclaimPolicy

pub data GracePeriodAction : Type 0 where
  delete_kustomization remove_finalizer : GracePeriodAction

pub record ProjectVerification : Type 0 where
  pub variable_name : Text
  pub provider : Text
  pub grace_period_days : ℤ
  pub on_grace_period_expired : GracePeriodAction

pub record ProjectCheckStatus : Type 0 where
  pub checked_at : Text
  pub result : Text
  pub message : Option Text

pub data ResourceSelectorType : Type 0 where
  env_selector fs_selector secret_selector literal_selector : ResourceSelectorType

pub record SecretSelector : Type 0 where
  pub name : Text
  pub key : Text

-- A value of the environment: of the operator's own, of a Secret, or given; one of the file system is
-- not looked at.
pub record ResourceRef : Type 0 where
  pub selector_type : ResourceSelectorType
  pub env : Option Text
  pub secret_ref : Option SecretSelector
  pub literal_ref : Option Text

pub record SshAuth : Type 0 where
  pub ssh_private_key : ResourceRef
  pub password : Option ResourceRef

pub record BasicAuth : Type 0 where
  pub user_name : ResourceRef
  pub password : ResourceRef

pub record GitAuthConfig : Type 0 where
  pub personal_access_token : Option ResourceRef
  pub ssh_auth : Option SshAuth
  pub basic_auth : Option BasicAuth

pub record ConfigMapRef : Type 0 where
  pub name : Text
  pub key : Text
  pub json : Option Bool

pub data NotificationEventFilter : Type 0 where
  on_update_succeeded on_update_failed on_destroy_succeeded : NotificationEventFilter
  on_destroy_failed on_lock_conflict on_stalled : NotificationEventFilter

pub record WebhookAuthSecret : Type 0 where
  pub name : Text
  pub key : Text

pub record NotificationWebhook : Type 0 where
  pub url : Text
  pub auth_secret : Option WebhookAuthSecret
  pub events : List NotificationEventFilter

pub record StackSpec : Type 0 where
  pub stack : Text
  pub backend : Option Text
  pub project_repo : Option Text
  pub flux_source : Option FluxSource
  pub program_ref : Option ProgramReference
  pub branch : Option Text
  pub commit : Option Text
  pub repo_dir : Option Text
  pub shallow : Bool
  pub git_auth : Option GitAuthConfig
  pub git_auth_secret : Option Text
  pub config : Option (List (Text × Text))
  pub secrets : Option (List (Text × Text))
  pub config_ref : Option (List (Text × ConfigMapRef))
  pub secret_refs : Option (List (Text × ResourceRef))
  pub secrets_provider : Option Text
  pub access_token_secret : Option Text
  pub env_refs : Option (List (Text × ResourceRef))
  pub envs : List Text
  pub secret_envs : List Text
  pub refresh : Bool
  pub expect_no_refresh_changes : Bool
  pub destroy_on_finalize : Bool
  pub retry_on_update_conflict : Bool
  pub continue_resync_on_commit_match : Bool
  pub use_local_stack_only : Bool
  pub resync_frequency_seconds : ℤ
  pub preview : Bool
  pub targets : List Text
  pub target_dependents : Bool
  pub prerequisites : List PrerequisiteRef
  pub service_account_name : Option Text
  pub workspace_template : Option JsonValue
  pub workspace_reclaim_policy : WorkspaceReclaimPolicy
  pub environment : List Text
  pub update_template : Option JsonValue
  pub retry_max_backoff_duration_seconds : ℤ
  pub lock_timeout_seconds : ℤ
  pub operation_timeout_seconds : ℤ
  pub finalizer_timeout_seconds : ℤ
  pub project_verification : Option ProjectVerification
  pub notifications : List NotificationWebhook

pub record StackUpdateState : Type 0 where
  pub generation : ℤ
  pub reconcile_request : Option Text
  pub name : Option Text
  pub update_type : Option Text
  pub state : Option Text
  pub message : Option Text
  pub last_attempted_commit : Option Text
  pub last_successful_commit : Option Text
  pub permalink : Option Text
  pub last_resync_time : Option Text
  pub failures : ℤ

pub record CurrentStackUpdate : Type 0 where
  pub generation : ℤ
  pub reconcile_request : Option Text
  pub name : Option Text
  pub commit : Option Text

pub record StackStatus : Type 0 where
  pub last_update : Option StackUpdateState
  pub observed_generation : ℤ
  pub observed_reconcile_request : Option Text
  pub conditions : List Condition
  pub current_update : Option CurrentStackUpdate
  pub pending_deletion_since : Option Text
  pub last_project_check : Option ProjectCheckStatus

pub record Stack : Type 0 where
  pub metadata : ObjectMeta
  pub spec : StackSpec
  pub status : Option StackStatus
