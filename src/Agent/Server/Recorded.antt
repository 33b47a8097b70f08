-- ===== src/Agent/Server/Recorded.antt =====
-- src/agent/server.rs with src/operator/controllers/update.rs: what the operator records of a run of
-- the agent.
use pulumi_rs_kube_operator.Base.{
  Option, none, some, and_then, [], Text, text, ◌≡◌, refl, Bool-cases, inl, inr, if◌then◌else◌,
}
use pulumi_rs_kube_operator.Reconcile.CheckUpdate.{truncate_message}
use pulumi_rs_kube_operator.Controllers.StreamUpdate.{
  StreamResult, default_result, drain, store_up, store_result,
}
use pulumi_rs_kube_operator.Agent.Redact.{redact_stderr}
use pulumi_rs_kube_operator.Agent.Process.{PulumiResult}
use pulumi_rs_kube_operator.Agent.Server.{
  failure_message, up_stream, destroy_stream, preview_stream, refresh_stream, result_of,
}

-- A failure, with its message cut short.
abbrev pub failure : Text → Option StreamResult
failure message =
    and_then (truncate_message message) (λ m. some (record default_result { error = some m }))

-- A result without outputs and without an error.
abbrev pub without_error : PulumiResult → StreamResult
without_error r = record {
  permalink = r.permalink;
  stdout = r.stdout;
  stderr = redact_stderr r.stderr;
  outputs = [];
  error = none;
}

-- The operator records a run of `up` or `destroy` as the agent saw it: a failed one as an error with
-- the redacted message, cut short, and any other with its permalink, its output and, for `up`, its
-- outputs; but a run of `preview` or `refresh` is recorded without an error, whether it failed or not.
pub drain-recorded :
    (trim : Text → Text) (r : PulumiResult)
    → (drain store_up (up_stream trim r) default_result ≡ (
        if r.failed
        then failure (failure_message trim (text "pulumi up failed: ") (redact_stderr r.stderr))
        else some (record {
          permalink = r.permalink;
          stdout = r.stdout;
          stderr = redact_stderr r.stderr;
          outputs = r.outputs;
          error = none;
        })))
      × (drain store_result (destroy_stream trim r) default_result ≡ (
          if r.failed
          then failure
              (failure_message trim (text "pulumi destroy failed: ") (redact_stderr r.stderr))
          else some (without_error r)))
      × (drain store_result (preview_stream r) default_result ≡ some (without_error r))
      × (drain store_result (refresh_stream r) default_result ≡ some (without_error r))
unfolding drain store_up store_result up_stream destroy_stream preview_stream refresh_stream
    result_of
drain-recorded trim r = elim (Bool-cases r.failed) [
  | inl e ↦ rw e (refl, refl, refl, refl)
  | inr e ↦ rw e (refl, refl, refl, refl)
]
