-- ===== src/Operator/Status.antt =====
-- src/operator/status.rs: the conditions and status patches that the actor sends. A patch names the
-- fields that it sets; one that it does not name is `unset`, and JSON's null is `null`.
use pulumi_rs_kube_operator.Base.{Text, some, Option, List, ℤ}
use pulumi_rs_kube_operator.Api.Conditions.{Condition}
use pulumi_rs_kube_operator.Api.Stack.{StackUpdateState, ProjectCheckStatus}

pub data Patched {ℓ} (A : Type ℓ) : Type ℓ where
  unset null : Patched A
  set_to : A → Patched A

pub record CurrentUpdatePatch : Type 0 where
  pub generation : ℤ
  pub name : Text

pub record StatusPatch : Type 0 where
  pub current_update : Patched CurrentUpdatePatch
  pub last_update : Patched StackUpdateState
  pub pending_deletion_since : Patched Text
  pub last_project_check : Patched ProjectCheckStatus
  pub outputs : Patched Text
  pub observed_generation : ℤ
  pub conditions : List Condition

-- A status that the execution of an Update applies; a field without value is left out or null.
pub record UpdatePatch : Type 0 where
  pub start_time : Text
  pub end_time : Option Text
  pub permalink : Option Text
  pub message : Option Text
  pub outputs : Option Text
  pub conditions : List Condition

unfoldable pub condition : Text → Text → Text → Text → Text → ℤ → Condition
condition type_ status reason message now generation = record {
  type_ = type_;
  status = status;
  reason = some reason;
  message = some message;
  last_transition_time = some now;
  observed_generation = generation;
}

-- A patch of the generation and the conditions alone, which the callers extend.
unfoldable pub conditions_patch : ℤ → List Condition → StatusPatch
conditions_patch generation conditions = record {
  current_update = unset;
  last_update = unset;
  pending_deletion_since = unset;
  last_project_check = unset;
  outputs = unset;
  observed_generation = generation;
  conditions = conditions;
}
