-- ===== src/Api/Owner.antt =====
-- src/api/owner.rs: owner references to Stacks and Workspaces.
use pulumi_rs_kube_operator.Base.{Bool, true, some, or_else, text, []}
use pulumi_rs_kube_operator.Api.Meta.{OwnerReference, name_any}
use pulumi_rs_kube_operator.Api.Stack.{Stack}
use pulumi_rs_kube_operator.Api.Workspace.{Workspace}

unfoldable pub stack_owner_ref : Stack → Bool → OwnerReference
stack_owner_ref stack controller = record {
  api_version = text "pulumi.com/v1";
  kind = text "Stack";
  name = name_any stack.metadata;
  uid = or_else stack.metadata.uid [];
  controller = some controller;
  block_owner_deletion = some true;
}

unfoldable pub workspace_owner_ref : Workspace → Bool → OwnerReference
workspace_owner_ref ws controller = record {
  api_version = text "auto.pulumi.com/v1alpha1";
  kind = text "Workspace";
  name = name_any ws.metadata;
  uid = or_else ws.metadata.uid [];
  controller = some controller;
  block_owner_deletion = some true;
}
