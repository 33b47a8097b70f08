-- ===== src/Controllers/Workspaces/Manifests/Addressed.antt =====
-- src/operator/controllers/workspace.rs: how the address of a workspace leads to its pod.
use pulumi_rs_kube_operator.Base.{
  ℕ, none, some, text_eq, if◌then◌else◌, List, [], ◌∷◌, ◌++◌, append_assoc, Option, Text, text,
  decimal, ◌≡◌, refl, ap, ◌∙◌, sym,
}
use pulumi_rs_kube_operator.Api.Meta.{OwnerReference}
use pulumi_rs_kube_operator.Api.Workspace.{Workspace, WorkspaceSpec, SecurityProfile}
use pulumi_rs_kube_operator.Operator.Messages.{NameKey}
use pulumi_rs_kube_operator.Operator.Effects.{Env}
use pulumi_rs_kube_operator.Actors.Requests.{workspace_address}
use pulumi_rs_kube_operator.Controllers.Workspaces.{EnvVar}
use pulumi_rs_kube_operator.Controllers.Workspaces.Manifests.{
  Labels, Container, grpc_port, StatefulSet, Service, workspace_labels, pulumi_container,
  workspace_resource, build_statefulset, build_headless_service,
}

-- The value of an option of a command line: the word behind it.
abbrev value_behind : Text → List Text → Option Text
value_behind option [] = none
value_behind option (word ∷ []) = none
value_behind option (word ∷ next ∷ rest) =
    if text_eq word option then some next else value_behind option (next ∷ rest)

-- The agent in a container listens on a port of all the addresses of its pod, which is declared.
pub record Listens (port : ℕ) (c : Container) : Type 0 where
  pub address :
      value_behind (text "--listen-address") c.args ≡ some (text "0.0.0.0:" ++ decimal port)
  pub declared : c.ports ≡ record { number = port; name = text "grpc" } ∷ []

-- The labels that only the pods of this workspace have.
abbrev pub own_labels : Text → Labels
own_labels name =
    (text "auto.pulumi.com/component", text "workspace")
    ∷ (text "auto.pulumi.com/workspace-name", name)
    ∷ []

-- The address is that of a port of the Service; the Service selects the workspace's own pods, which are
-- those of the StatefulSet; and their one container listens on the port.
pub record Reaches (key : NameKey) (address : Text) (svc : Service) (sts : StatefulSet)
    : Type 0 where
  pub service : address ≡ svc.name ++ text "." ++ svc.namespace ++ text ":" ++ decimal grpc_port
  pub ports :
      svc.ports ≡ record { port = grpc_port; target_port = grpc_port; name = text "grpc" } ∷ []
  pub selects : svc.selector ≡ own_labels key.name
  pub labelled : sts.pod_labels ≡ own_labels key.name
  pub matches : sts.match_labels ≡ own_labels key.name
  pub governed : sts.service_name ≡ svc.name
  pub svc_namespace : svc.namespace ≡ key.ns
  pub sts_namespace : sts.namespace ≡ key.ns
  pub container : Container
  pub containers : sts.containers ≡ container ∷ []
  pub listens : Listens grpc_port container

address_text :
    (name ns : Text)
    → name ++ text "-workspace." ++ ns ++ text ":50051"
      ≡ name ++ text "-workspace" ++ text "." ++ ns ++ text ":" ++ text "50051"
unfolding text
address_text name ns =
    ap (λ t. t ++ ns ++ text ":50051") (sym (append_assoc name (text "-workspace") (text ".")))
    ∙ sym (append_assoc (name ++ text "-workspace" ++ text "." ++ ns) (text ":") (text "50051"))

port_text : decimal grpc_port ≡ text "50051"
unfolding decimal text
port_text = refl

listening :
    (image : Text) (extra_env : List EnvVar) (profile : SecurityProfile)
    → Listens grpc_port (pulumi_container image extra_env profile)
unfolding pulumi_container text_eq text decimal
listening image extra_env profile = record { address = refl; declared = refl }

-- Without the variable for local development, the address that the operator connects to for a
-- workspace is that of the port 50051 of the workspace's Service; the Service selects the labels of
-- this workspace, name included, which the pods of the StatefulSet bear; and the one container of
-- these pods is told to listen on this port of all its addresses.
pub workspace_address-Reaches :
    (env : Env) (key : NameKey) (hash : WorkspaceSpec → Text) (ws : Workspace)
    (owner_ref : OwnerReference) (image : Text) (extra_env : List EnvVar)
    (program_url : Option Text)
    → env.localhost ≡ none
    → Reaches key
        (workspace_address env key)
        (build_headless_service key.name key.ns owner_ref)
        (build_statefulset hash ws key.name key.ns owner_ref image extra_env program_url)
unfolding workspace_address build_headless_service build_statefulset workspace_resource
    workspace_labels
workspace_address-Reaches env key hash ws owner_ref image extra_env program_url local = record {
  service = rw (local, port_text) (address_text key.name key.ns);
  ports = refl;
  selects = refl;
  labelled = refl;
  matches = refl;
  governed = refl;
  svc_namespace = refl;
  sts_namespace = refl;
  container = pulumi_container image extra_env ws.spec.security_profile;
  containers = refl;
  listens = listening image extra_env ws.spec.security_profile;
}
