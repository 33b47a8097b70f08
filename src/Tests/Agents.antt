-- ===== src/Tests/Agents.antt =====
-- The agent of a workspace and its pod at concrete inputs.
use pulumi_rs_kube_operator.Base.{
  true, none, some, [], ◌∷◌, ◌+◌, ◌≤◌, text, length, ◌≡◌, refl, arith,
}
use pulumi_rs_kube_operator.Actors.Requests.{workspace_address}
use pulumi_rs_kube_operator.Controllers.StreamUpdate.{default_result, drain, store_up, store_result}
use pulumi_rs_kube_operator.Controllers.Workspaces.{build_workspace_spec, fetch_env}
use pulumi_rs_kube_operator.Controllers.Workspaces.Manifests.{
  build_statefulset, build_headless_service,
}
use pulumi_rs_kube_operator.Controllers.Workspaces.Manifests.Addressed.{
  workspace_address-Reaches, Reaches,
}
use pulumi_rs_kube_operator.Api.Meta.{OwnerReference}
use pulumi_rs_kube_operator.Agent.Init.Handoff.{fetch_env-handoff, source_of, expected}
use pulumi_rs_kube_operator.Agent.Redact.{redact_stderr}
use pulumi_rs_kube_operator.Agent.Process.{
  Json, Process, ended, PulumiResult, max_output_bytes, run_pulumi_streaming,
}
use pulumi_rs_kube_operator.Agent.Process.Bounds.{run_pulumi_streaming-le}
use pulumi_rs_kube_operator.Agent.Server.{
  failure_message, up_stream, destroy_stream, preview_stream, refresh_stream,
}
use pulumi_rs_kube_operator.Agent.Server.Recorded.{drain-recorded, failure, without_error}
use pulumi_rs_kube_operator.Tests.Data.{env, key, stack, workspace}

fetch_env-handoff_example :
    source_of (fetch_env (build_workspace_spec stack) none)
    ≡ expected stack stack.spec.project_repo none
fetch_env-handoff_example = fetch_env-handoff stack none

abbrev json : Json
json = record { permalink_of = λ l. none; outputs_of = λ l. none }

abbrev agent_process : Process
agent_process = ended (text "one" ∷ text "two" ∷ []) (text "failed" ∷ []) true

run_pulumi_streaming-le_example :
    length (run_pulumi_streaming json agent_process).stdout ≤ max_output_bytes + 3
unfolding text
run_pulumi_streaming-le_example =
    run_pulumi_streaming-le json agent_process 3 (omega arith, (omega arith, tt))

-- A run that failed.
abbrev failed_run : PulumiResult
failed_run = record {
  stdout = [];
  stderr = text "error: no such stack";
  permalink = none;
  outputs = [];
  failed = true;
}

drain-recorded_example :
    (drain store_up (up_stream (λ t. t) failed_run) default_result
      ≡ failure
          (failure_message (λ t. t) (text "pulumi up failed: ") (redact_stderr failed_run.stderr)))
    × (drain store_result (destroy_stream (λ t. t) failed_run) default_result
        ≡ failure (
            failure_message
              (λ t. t)
              (text "pulumi destroy failed: ")
              (redact_stderr failed_run.stderr)))
    × (drain store_result (preview_stream failed_run) default_result
        ≡ some (without_error failed_run))
    × (drain store_result (refresh_stream failed_run) default_result
        ≡ some (without_error failed_run))
drain-recorded_example = drain-recorded (λ t. t) failed_run

abbrev owner : OwnerReference
owner = record {
  api_version = text "auto.pulumi.com/v1alpha1";
  kind = text "Workspace";
  name = text "app";
  uid = text "2";
  controller = some true;
  block_owner_deletion = some true;
}

workspace_address-Reaches_example :
    Reaches key
      (workspace_address env key)
      (build_headless_service key.name key.ns owner)
      (build_statefulset (λ s. text "00") workspace key.name key.ns owner (text "image") [] none)
workspace_address-Reaches_example =
    workspace_address-Reaches env key (λ s. text "00") workspace owner (text "image") [] none refl
