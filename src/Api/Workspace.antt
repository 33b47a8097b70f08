-- ===== src/Api/Workspace.antt =====
-- src/api/workspace.rs: the Workspace resource, as far as the operator fills it in or reads it.
use pulumi_rs_kube_operator.Base.{Text, Bool, List, Option}
use pulumi_rs_kube_operator.Api.Meta.{ObjectMeta}
use pulumi_rs_kube_operator.Api.Conditions.{Condition}

pub data SecurityProfile : Type 0 where
  restricted baseline : SecurityProfile

pub record WorkspaceGitSource : Type 0 where
  pub url : Option Text
  pub git_ref : Option Text
  pub dir : Option Text
  pub shallow : Bool

pub record WorkspaceFluxSource : Type 0 where
  pub url : Option Text
  pub digest : Option Text
  pub dir : Option Text

pub record WorkspaceStack : Type 0 where
  pub name : Text
  pub create : Option Bool
  pub secrets_provider : Option Text
  pub environment : List Text

pub record WorkspaceSpec : Type 0 where
  pub service_account_name : Option Text
  pub security_profile : SecurityProfile
  pub git : Option WorkspaceGitSource
  pub flux : Option WorkspaceFluxSource
  pub stacks : List WorkspaceStack

pub record WorkspaceStatus : Type 0 where
  pub conditions : List Condition

pub record Workspace : Type 0 where
  pub metadata : ObjectMeta
  pub spec : WorkspaceSpec
  pub status : Option WorkspaceStatus
