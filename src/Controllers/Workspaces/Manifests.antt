-- ===== src/Controllers/Workspaces/Manifests.antt =====
-- src/operator/controllers/workspace.rs: the StatefulSet and the Service of a workspace, with the
-- fields that are set. The hash of a workspace's text is an argument.
pub mod Addressed
use pulumi_rs_kube_operator.Base.{
  ℕ, Bool, true, false, Option, none, some, List, [], ◌∷◌, ◌++◌, Text, text,
}
use pulumi_rs_kube_operator.Api.Meta.{OwnerReference}
use pulumi_rs_kube_operator.Api.Workspace.{
  Workspace, WorkspaceSpec, SecurityProfile, restricted, baseline,
}
use pulumi_rs_kube_operator.Controllers.Workspaces.{EnvVar, fetch_env}

abbrev pub Labels : Type 0
Labels = List (Text × Text)

abbrev pub grpc_port : ℕ
grpc_port = 50051

abbrev pub termination_grace_period : ℕ
termination_grace_period = 600

abbrev pub auto_component_label : Text
auto_component_label = text "auto.pulumi.com/component"

abbrev pub workspace_name_label : Text
workspace_name_label = text "auto.pulumi.com/workspace-name"

abbrev pub pod_revision_hash_ann : Text
pod_revision_hash_ann = text "auto.pulumi.com/revision-hash"

pub record SecurityContext : Type 0 where
  pub run_as_non_root : Bool
  pub run_as_user : ℕ
  pub allow_privilege_escalation : Bool
  pub drop_capabilities : List Text
  pub seccomp_profile : Text

pub record Port : Type 0 where
  pub number : ℕ
  pub name : Text

pub record VolumeMount : Type 0 where
  pub name : Text
  pub mount_path : Text

pub record Container : Type 0 where
  pub name : Text
  pub image : Text
  pub command : List Text
  pub args : List Text
  pub ports : List Port
  pub env : Option (List EnvVar)
  pub volume_mounts : List VolumeMount
  pub security_context : Option SecurityContext

pub record StatefulSet : Type 0 where
  pub name : Text
  pub namespace : Text
  pub labels : Labels
  pub owner_references : List OwnerReference
  pub replicas : ℕ
  pub pod_management_policy : Text
  pub service_name : Text
  pub match_labels : Labels
  pub pod_labels : Labels
  pub pod_annotations : Labels
  pub init_containers : List Container
  pub containers : List Container
  pub empty_dir_volumes : List Text
  pub service_account_name : Option Text
  pub termination_grace_period_seconds : ℕ

unfoldable pub share_mount : VolumeMount
share_mount = record { name = text "share"; mount_path = text "/share" }

unfoldable pub workspace_labels : Text → Labels
workspace_labels ws_name =
    (auto_component_label, text "workspace") ∷ (workspace_name_label, ws_name) ∷ []

unfoldable pub bootstrap : (image : Text) → Container
unfolding share_mount
bootstrap image = record {
  name = text "bootstrap";
  image = image;
  command = text "sh" ∷ text "-c" ∷ [];
  args =
      text
        "cp /usr/local/bin/pulumi-kubernetes-operator /share/agent && cp /usr/bin/tini /share/tini"
      ∷ [];
  ports = [];
  env = none;
  volume_mounts = share_mount ∷ [];
  security_context = none;
}

-- The variables of a container, left out if there are none.
abbrev pub some_vars : List EnvVar → Option (List EnvVar)
some_vars [] = none
some_vars (v ∷ vs) = some (v ∷ vs)

unfoldable pub fetch : (image : Text) → List EnvVar → Container
unfolding share_mount
fetch image vars = record {
  name = text "fetch";
  image = image;
  command = text "/usr/local/bin/pulumi-kubernetes-operator" ∷ [];
  args = text "init" ∷ [];
  ports = [];
  env = some_vars vars;
  volume_mounts = share_mount ∷ [];
  security_context = none;
}

unfoldable pub security_context_of : SecurityProfile → Option SecurityContext
security_context_of restricted = some (record {
  run_as_non_root = true;
  run_as_user = 1000;
  allow_privilege_escalation = false;
  drop_capabilities = text "ALL" ∷ [];
  seccomp_profile = text "RuntimeDefault";
})
security_context_of baseline = none

unfoldable pub pulumi_container : (image : Text) → List EnvVar → SecurityProfile → Container
unfolding share_mount security_context_of
pulumi_container image extra_env profile = record {
  name = text "pulumi";
  image = image;
  command = text "/share/tini" ∷ text "--" ∷ text "/usr/local/bin/pulumi-kubernetes-operator" ∷ [];
  args =
      text "agent"
      ∷ text "--listen-address"
      ∷ text "0.0.0.0:50051"
      ∷ text "--workspace-dir"
      ∷ text "/share/workspace"
      ∷ [];
  ports = record { number = grpc_port; name = text "grpc" } ∷ [];
  env = some_vars extra_env;
  volume_mounts = share_mount ∷ [];
  security_context = security_context_of profile;
}

unfoldable pub workspace_resource : Text → Text
workspace_resource ws_name = ws_name ++ text "-workspace"

unfoldable pub build_statefulset :
    (revision_hash : WorkspaceSpec → Text)
    → Workspace
    → (ws_name ns : Text) → OwnerReference
    → (image : Text) → (extra_env : List EnvVar) → (program_url : Option Text) → StatefulSet
unfolding bootstrap fetch pulumi_container workspace_labels workspace_resource
build_statefulset revision_hash ws ws_name ns owner_ref image extra_env program_url = record {
  name = workspace_resource ws_name;
  namespace = ns;
  labels = workspace_labels ws_name;
  owner_references = owner_ref ∷ [];
  replicas = 1;
  pod_management_policy = text "Parallel";
  service_name = workspace_resource ws_name;
  match_labels = workspace_labels ws_name;
  pod_labels = workspace_labels ws_name;
  pod_annotations = (pod_revision_hash_ann, revision_hash ws.spec) ∷ [];
  init_containers = bootstrap image ∷ fetch image (fetch_env ws.spec program_url) ∷ [];
  containers = pulumi_container image extra_env ws.spec.security_profile ∷ [];
  empty_dir_volumes = text "share" ∷ [];
  service_account_name = ws.spec.service_account_name;
  termination_grace_period_seconds = termination_grace_period;
}

pub record ServicePort : Type 0 where
  pub port : ℕ
  pub target_port : ℕ
  pub name : Text

pub record Service : Type 0 where
  pub name : Text
  pub namespace : Text
  pub labels : Labels
  pub owner_references : List OwnerReference
  pub cluster_ip : Text
  pub selector : Labels
  pub ports : List ServicePort

unfoldable pub build_headless_service : (ws_name ns : Text) → OwnerReference → Service
unfolding workspace_labels workspace_resource
build_headless_service ws_name ns owner_ref = record {
  name = workspace_resource ws_name;
  namespace = ns;
  labels = workspace_labels ws_name;
  owner_references = owner_ref ∷ [];
  cluster_ip = text "None";
  selector = workspace_labels ws_name;
  ports = record { port = grpc_port; target_port = grpc_port; name = text "grpc" } ∷ [];
}
