-- ===== src/Api/Update.antt =====
-- src/api/update.rs: the Update resource.
use pulumi_rs_kube_operator.Base.{Text, Bool, List, Option, ℤ}
use pulumi_rs_kube_operator.Api.Meta.{ObjectMeta}
use pulumi_rs_kube_operator.Api.Conditions.{Condition}

pub data UpdateType : Type 0 where
  preview up destroy refresh_only : UpdateType

pub record UpdateSpec : Type 0 where
  pub workspace_name : Option Text
  pub stack_name : Option Text
  pub update_type : Option UpdateType
  pub ttl_after_completed : Option Text
  pub parallel : Option ℤ
  pub message : Option Text
  pub expect_no_changes : Option Bool
  pub replace : List Text
  pub target : List Text
  pub target_dependents : Option Bool
  pub refresh : Option Bool
  pub continue_on_error : Option Bool
  pub remove : Option Bool

pub record UpdateStatus : Type 0 where
  pub observed_generation : ℤ
  pub start_time : Option Text
  pub end_time : Option Text
  pub permalink : Option Text
  pub message : Option Text
  pub outputs : Option Text
  pub conditions : List Condition

pub record Update : Type 0 where
  pub metadata : ObjectMeta
  pub spec : UpdateSpec
  pub status : Option UpdateStatus
