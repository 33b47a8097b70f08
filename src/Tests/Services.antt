-- ===== src/Tests/Services.antt =====
-- Programs, their file server and the webhook at concrete inputs.
use pulumi_rs_kube_operator.Base.{
  none, some, [], ◌∷◌, ◌++◌, ok, Text, text, text_eq, option_text_eq, strip_prefix, decimal_int,
  pos, length, ◌≡◌, ◌↔◌, refl,
}
use pulumi_rs_kube_operator.Api.Meta.{name_any, has_finalizer}
use pulumi_rs_kube_operator.Api.Program.{Program, Artifact, Resource}
use pulumi_rs_kube_operator.Operator.Finalizers.{program_finalizer_action}
use pulumi_rs_kube_operator.Operator.Effects.{read}
use pulumi_rs_kube_operator.Controllers.FileServer.{serve}
use pulumi_rs_kube_operator.Controllers.Artifact.{
  Toolkit, artifact_path, artifact_url, build_artifact,
}
use pulumi_rs_kube_operator.Controllers.Programs.{
  Publisher, generation_of, reconcile_program, ensure_serving, remove_finalizer, program_applied,
}
use pulumi_rs_kube_operator.Controllers.Programs.Protection.{reconcile_program-Removable, Removable}
use pulumi_rs_kube_operator.Controllers.Programs.Served.{program_applied-Served}
use pulumi_rs_kube_operator.Webhook.{Mac, Request, handle_webhook}
use pulumi_rs_kube_operator.Webhook.Authentic.{handle_webhook-Signed, Signed}
use pulumi_rs_kube_operator.Agent.Redact.{redact_stderr}
use pulumi_rs_kube_operator.Agent.Redact.Clean.{redact_stderr-Clean, Clean}
use pulumi_rs_kube_operator.Tests.Data.{env, start, stack, metadata}

-- Every section is written as one text, and an archive is its content.
abbrev kit : Toolkit
kit = record {
  Yaml = Text;
  to_value = λ s. some (text "section");
  yaml_string = λ t. t;
  to_string = λ d. some (text "yaml");
  tar_gz = λ f c. some c;
  sha256_hex = λ b. text "00";
}

abbrev publisher : Publisher
publisher = record { kit = kit; stacks = λ h. stack ∷ []; server_addr = text "operator:9090" }

abbrev bucket : Resource
bucket = record {
  resource_type = text "gcp:storage:Bucket";
  properties = none;
  options = none;
  get = none;
}

abbrev program : Program
program = record {
  types = none;
  metadata = record (metadata none) { finalizers = none };
  spec = record {
    configuration = none;
    resources = some ((text "bucket", bucket) ∷ []);
    variables = none;
    outputs = none;
    packages = none;
  };
  status = none;
}

reconcile_program-Removable_example :
    reconcile_program (stack ∷ []) program ≡ remove_finalizer ↔ Removable (stack ∷ []) program
reconcile_program-Removable_example = reconcile_program-Removable (stack ∷ []) program

is_served : reconcile_program (publisher.stacks start) program ≡ ensure_serving
unfolding reconcile_program program_finalizer_action has_finalizer option_text_eq text_eq text
is_served = refl

abbrev artifact : Artifact
artifact =
    let path = artifact_path (text "default") (text "app") (pos 1) in
    record {
      path = path;
      url = artifact_url (text "operator:9090") path;
      revision = decimal_int (pos 1);
      digest = some (text "sha256:" ++ text "00");
      last_update_time = text "t";
      size = some (pos (length (text "yaml")));
      metadata = none;
    }

is_built :
    build_artifact kit program
      (text "default")
      (name_any program.metadata)
      (generation_of program)
      publisher.server_addr
      (env.to_rfc3339 (env.utc (read publisher.stacks start).1))
    ≡ ok (artifact, text "yaml")
unfolding build_artifact
is_built = refl

program_applied-Served_example :
    (artifact.url
      ≡ artifact_url (text "operator:9090") (artifact_path (text "default") (text "app") (pos 1)))
    × (serve
          (program_applied env publisher program [] start).0
          (text "/" ++ artifact_path (text "default") (text "app") (pos 1))
        ≡ record { status = 200; body = text "yaml" })
program_applied-Served_example =
    program_applied-Served env publisher program (text "default") [] start artifact (text "yaml")
      refl is_served is_built

abbrev mac : Mac
mac = record { digest = λ k p. some p; hex = λ b. b }

abbrev signed_request : Request
signed_request = record {
  path = text "/webhook";
  signature = some (text "sha256=" ++ text "data");
  event_type = some (text "push");
  body = some (text "data");
}

is_accepted : (handle_webhook mac (some (text "key")) signed_request).status ≡ 200
unfolding handle_webhook text text_eq strip_prefix
is_accepted = refl

handle_webhook-Signed_example :
    (payload : Text) × (signed_request.body ≡ some payload)
    × Signed mac (text "key") payload signed_request.signature
handle_webhook-Signed_example =
    handle_webhook-Signed mac (text "key") signed_request refl is_accepted

abbrev leak : Text
leak = text "error: PassWord=hunter2"

redact_stderr-Clean_example : Clean (redact_stderr leak)
redact_stderr-Clean_example = redact_stderr-Clean leak
