-- ===== src/Agent/Server.antt =====
-- src/agent/server.rs: the service of the workspace agent. `run` is what a run of Pulumi with given
-- arguments comes to, and `trim` is `str::trim`.
pub mod Recorded
use pulumi_rs_kube_operator.Base.{
  ℕ, Bool, true, false, ◌||◌, not, Option, none, some, or_else, List, [], ◌∷◌, ◌++◌, map, Result,
  ok, err, Text, text, any, starts_with, if◌then◌else◌,
}
use pulumi_rs_kube_operator.Core.Lock.{Status}
use pulumi_rs_kube_operator.Controllers.Protocol.{UpResult, OperationResult, result}
use pulumi_rs_kube_operator.Controllers.Secret.{join_with}
use pulumi_rs_kube_operator.Controllers.StreamUpdate.{Stream}
use pulumi_rs_kube_operator.Agent.Redact.{redact_stderr}
use pulumi_rs_kube_operator.Agent.Command.{
  Args, select_stack_args, add_environment_args, install_args, cancel_args, version_args, flag_arg,
}
use pulumi_rs_kube_operator.Agent.Process.{PulumiResult}

-- What a run of Pulumi that is waited for gives: an error of the system, output that is text or
-- not, or a failure with what it wrote to its error stream.
pub data Output : Type 0 where
  not_run : (message : Text) → Output
  success : (stdout : Text) → Output
  not_utf8 : (message : Text) → Output
  failure : (stderr : Text) → Output

abbrev pub internal : Text → Status
internal message = record { code = 13; status_message = message }

unfoldable pub run_pulumi : Output → Result Status Text
run_pulumi (not_run message) = err (internal (text "failed to run pulumi: " ++ message))
run_pulumi (success stdout) = ok stdout
run_pulumi (not_utf8 message) = err (internal (text "invalid output: " ++ message))
run_pulumi (failure stderr) = err (internal (text "pulumi failed: " ++ redact_stderr stderr))

unfoldable pub answer_with : {A : Type 0} → A → Result Status Text → Result Status A
answer_with a (ok out) = ok a
answer_with a (err e) = err e

module _ (run : Args → Output) where
  unfoldable pub serve_select_stack : Text → Option Bool → Result Status (Unit {0})
  unfolding run_pulumi answer_with
  serve_select_stack stack_name create =
      answer_with tt (run_pulumi (run (select_stack_args stack_name create)))

  -- Each step needs that the one before it succeeded.
  unfoldable pub run_each : List Args → Result Status (Unit {0})
  unfolding run_pulumi
  run_each [] = ok tt
  run_each (args ∷ rest) = elim (run_pulumi (run args)) [ err e ↦ err e | ok out ↦ run_each rest ]

  unfoldable pub serve_install : Result Status (Unit {0})
  unfolding run_pulumi answer_with
  serve_install = answer_with tt (run_pulumi (run install_args))

  unfoldable pub serve_cancel_update : Result Status Text
  unfolding run_pulumi answer_with
  serve_cancel_update = answer_with (text "Lock cleared") (run_pulumi (run cancel_args))

  unfoldable pub serve_add_environments : List Text → Result Status (Unit {0})
  unfolding run_each
  serve_add_environments environments = run_each (map add_environment_args environments)

  unfoldable pub serve_pulumi_version : (trim : Text → Text) → Result Status Text
  unfolding run_pulumi
  serve_pulumi_version trim = elim (run_pulumi (run version_args)) [
    | err e ↦ err e
    | ok out ↦ ok (trim out)
  ]

-- The message of an operation that failed.
unfoldable pub failure_message : (trim : Text → Text) → Text → (redacted : Text) → Text
failure_message trim prefix [] = prefix ++ text "unknown error"
failure_message trim prefix (c ∷ cs) = prefix ++ trim (c ∷ cs)

-- What the streams carry: one message, whatever the run came to.
unfoldable pub up_stream : (trim : Text → Text) → PulumiResult → Stream UpResult
unfolding failure_message
up_stream trim r =
    if r.failed
    then err (internal (failure_message trim (text "pulumi up failed: ") (redact_stderr r.stderr)))
      ∷ []
    else ok (
        some (
          result (record {
            stdout = r.stdout;
            stderr = redact_stderr r.stderr;
            permalink = r.permalink;
            outputs = r.outputs;
          })))
      ∷ []

unfoldable pub result_of : PulumiResult → OperationResult
result_of r = record { stdout = r.stdout; stderr = redact_stderr r.stderr; permalink = r.permalink }

unfoldable pub destroy_stream : (trim : Text → Text) → PulumiResult → Stream OperationResult
unfolding failure_message result_of
destroy_stream trim r =
    if r.failed
    then err
        (internal (failure_message trim (text "pulumi destroy failed: ") (redact_stderr r.stderr)))
      ∷ []
    else ok (some (result (result_of r))) ∷ []

unfoldable pub preview_stream : PulumiResult → Stream OperationResult
unfolding result_of
preview_stream r = ok (some (result (result_of r))) ∷ []

unfoldable pub refresh_stream : PulumiResult → Stream OperationResult
unfolding result_of
refresh_stream r = ok (some (result (result_of r))) ∷ []
