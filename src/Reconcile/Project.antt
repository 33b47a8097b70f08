-- ===== src/Reconcile/Project.antt =====
-- src/operator/reconcile/project.rs: does the stack's cloud project still exist, and for how long
-- has it been gone.
use pulumi_rs_kube_operator.Base.{
  ℕ, ◌*◌, ◌%◌, Bool, true, Option, none, some, or_else, and_then, List, [], ◌∷◌, ◌++◌, Result, ok,
  err, Text, text, text_eq, decimal, ℤ, pos_part, Instant, from_secs, ltb, leb, ◌==◌, if◌then◌else◌,
}
use pulumi_rs_kube_operator.Api.Json.{JsonValue, as_str}
use pulumi_rs_kube_operator.Core.Time.{elapsed_since}
use pulumi_rs_kube_operator.Api.Stack.{Stack, ProjectVerification, ProjectCheckStatus}
use pulumi_rs_kube_operator.Operator.Effects.{
  Env, M, History, TokenReply, token_unsent, token_refused, token_unparsed, token_body, GcpReply,
  no_token, request_failed, response, read, pure, ◌>>=◌,
}

pub data ProjectCheckResult : Type 0 where
  not_configured active : ProjectCheckResult
  project_not_found : (project_id : Text) → ProjectCheckResult
  check_error : (message : Text) → ProjectCheckResult

-- The answer that was cached in the status; a cached error counts as active.
unfoldable pub cached_result : Text → ProjectCheckResult
cached_result result =
    if text_eq result (text "active")
    then active
    else if text_eq result (text "not_found")
    then project_not_found (text "cached")
    else active

unfoldable pub find_variable : Text → List (Text × JsonValue) → Option Text
unfolding as_str
find_variable name [] = none
find_variable name ((k, v) ∷ rest) = elim (text_eq k name) [
  | true ↦ as_str v
  | _ ↦ find_variable name rest
]

unfoldable pub extract_project_id : Env → Text → Stack → Text → M (Option Text)
unfolding find_variable
extract_project_id env ns stack variable_name = elim stack.spec.program_ref [
  | none ↦ pure none
  | some program_ref ↦ (do
    found ← read (env.store_program ns program_ref.name)
    pure (and_then found λ p. and_then p.spec.variables λ vs. find_variable variable_name vs))
]

-- `state` is the body's field `state`, if the body has one.
unfoldable pub gcp_result : Text → GcpReply → ProjectCheckResult
gcp_result project_id (no_token e) = check_error (text "auth: " ++ e)
gcp_result project_id (request_failed e) = check_error (text "GCP API request failed: " ++ e)
gcp_result project_id (response status state) =
    if status == 200
    then (if text_eq (or_else state (text "ACTIVE")) (text "ACTIVE")
        then active
        else project_not_found project_id)
    else if status == 403
    then check_error (text "permission denied for project " ++ project_id)
    else if status == 404
    then project_not_found project_id
    else check_error (text "GCP API returned " ++ decimal status)

unfoldable pub get_gcp_access_token : TokenReply → Result Text Text
get_gcp_access_token (token_unsent m) = err (text "metadata request failed: " ++ m)
get_gcp_access_token (token_refused status) = err (text "metadata server returned " ++ status)
get_gcp_access_token (token_unparsed m) = err (text "failed to parse token response: " ++ m)
get_gcp_access_token (token_body none) = err (text "no access_token in metadata response")
get_gcp_access_token (token_body (some token)) = ok token

-- The API is asked with the token.
unfoldable pub check_gcp_project : Env → Text → History → GcpReply
unfolding get_gcp_access_token
check_gcp_project env project_id h = elim (get_gcp_access_token (env.gcp_token h)) [
  | err e ↦ no_token e
  | ok token ↦ env.gcp_project token project_id h
]

-- The check that is made when no fresh answer is cached.
unfoldable pub check_now : Env → Text → Stack → ProjectVerification → M ProjectCheckResult
unfolding extract_project_id check_gcp_project gcp_result
check_now env ns stack verification = do
  id ← extract_project_id env ns stack verification.variable_name
  elim id [
    | none ↦ pure not_configured
    | some project_id ↦
        if text_eq verification.provider (text "gcp")
        then (do
          reply ← read (check_gcp_project env project_id)
          pure (gcp_result project_id reply))
        else pure (check_error (text "unsupported provider: " ++ verification.provider))
  ]

-- An answer less than five minutes old is used again.
unfoldable pub fresh_result : Env → Instant → Option ProjectCheckStatus → Option ProjectCheckResult
unfolding cached_result
fresh_result env now none = none
fresh_result env now (some status) =
    if ltb (elapsed_since env.parse_rfc3339 now (some status.checked_at)) (from_secs 300)
    then some (cached_result status.result)
    else none

unfoldable pub check_project : Env → Text → Stack → M ProjectCheckResult
unfolding check_now fresh_result
check_project env ns stack = elim stack.spec.project_verification [
  | none ↦ pure not_configured
  | some verification ↦ (do
    now ← read env.utc
    elim (fresh_result env now (and_then stack.status (λ s. s.last_project_check))) [
      | some result ↦ pure result
      | none ↦ check_now env ns stack verification
    ])
]

-- The product of `u64`, which wraps in a release build.
unfoldable pub grace_secs : ℤ → ℕ
grace_secs days = (pos_part days * 86400) % 18446744073709551616

unfoldable pub is_grace_period_expired : (Text → Option Instant) → Instant → Text → ℤ → Bool
unfolding grace_secs
is_grace_period_expired parse now pending_since days =
    leb (from_secs (grace_secs days)) (elapsed_since parse now (some pending_since))

unfoldable pub build_check_status : Text → ProjectCheckResult → ProjectCheckStatus
build_check_status now not_configured = record {
  checked_at = now;
  result = text "not_configured";
  message = none;
}
build_check_status now active = record { checked_at = now; result = text "active"; message = none }
build_check_status now (project_not_found id) = record {
  checked_at = now;
  result = text "not_found";
  message = some (text "project " ++ id ++ text " not found");
}
build_check_status now (check_error message) = record {
  checked_at = now;
  result = text "error";
  message = some message;
}
