-- ===== src/Reconcile/Source.antt =====
-- src/operator/reconcile/source.rs: where a stack's program comes from, and its current commit.
use pulumi_rs_kube_operator.Base.{
  Bool, false, Option, none, some, or_else, and_then, [], ◌∷◌, ◌++◌, Result, ok, err, Text, text,
  text_eq, to_ascii_lowercase, lower, ◌==◌, if◌then◌else◌,
}
use pulumi_rs_kube_operator.Errors.{
  OperatorError, transient, permanent, spec_invalid, source_unavailable, program_not_found,
  artifact_not_ready, kube_api,
}
use pulumi_rs_kube_operator.Api.Stack.{StackSpec, FluxSource, ProgramReference}
use pulumi_rs_kube_operator.Api.Program.{Program, Artifact}
use pulumi_rs_kube_operator.Operator.Effects.{Env, Op, KubeError, api, other_error, read}
use pulumi_rs_kube_operator.Operator.Fallible.{◌>>=◌, return, throw, lift, of_result, map_err}

pub data SourceType : Type 0 where
  git_source flux_source program_source : SourceType

pub record SourceInfo : Type 0 where
  pub commit : Text
  pub source_type : SourceType

pub data SourceKind : Type 0 where
  git : (repo : Text) → (branch commit : Option Text) → SourceKind
  flux : FluxSource → SourceKind
  program : ProgramReference → SourceKind

-- The match on the three sources: exactly one of them must be there.
unfoldable pub source_case :
    StackSpec
    → Option Text
    → Option FluxSource
    → Option ProgramReference
    → Result OperatorError SourceKind
source_case spec (some repo) none none = ok (git repo spec.branch spec.commit)
source_case spec none (some f) none = ok (flux f)
source_case spec none none (some p) = ok (program p)
source_case _ _ _ _ = err (permanent (spec_invalid (text "source")))

unfoldable pub from_spec : StackSpec → Result OperatorError SourceKind
unfolding source_case
from_spec spec = source_case spec spec.project_repo spec.flux_source spec.program_ref

unfoldable pub resolve_git : Option Text → SourceInfo
resolve_git commit = record { commit = or_else commit (text "HEAD"); source_type = git_source }

-- `rsplit_once('/')`: the parts before and after the last slash.
unfoldable pub rsplit_slash : Text → Option (Text × Text)
rsplit_slash [] = none
rsplit_slash (c ∷ s) = elim (rsplit_slash s) [
  | some (a, b) ↦ some (c ∷ a, b)
  | none ↦ if c == b'/' then some ([], s) else none
]

unfoldable pub parse_api_version : Text → Result OperatorError (Text × Text)
unfolding rsplit_slash
parse_api_version v = elim (rsplit_slash v) [
  | some p ↦ ok p
  | none ↦ err (permanent (spec_invalid (text "sourceRef.apiVersion")))
]

unfoldable pub ends_with_s : Text → Bool
ends_with_s [] = false
ends_with_s (c ∷ []) = c == b's'
ends_with_s (c ∷ d ∷ s) = ends_with_s (d ∷ s)

-- Kinds of Kubernetes are ASCII, where `to_lowercase` is `to_ascii_lowercase`.
unfoldable pub pluralize_kind : Text → Text
unfolding ends_with_s lower
pluralize_kind kind =
    if text_eq kind (text "GitRepository")
    then text "gitrepositories"
    else if text_eq kind (text "Bucket")
    then text "buckets"
    else if text_eq kind (text "OCIRepository")
    then text "ocirepositories"
    else (let low = to_ascii_lowercase kind in if ends_with_s low then low else low ++ text "s")

unfoldable pub flux_error : KubeError → OperatorError
flux_error (api code) =
    if code == 404
    then permanent source_unavailable
    else transient (kube_api (text "failed to get Flux source"))
flux_error other_error = transient (kube_api (text "failed to get Flux source"))

unfoldable pub resolve_flux : Env → Text → FluxSource → Op SourceInfo
unfolding flux_error
resolve_flux env ns source = do
  let source_ref = source.source_ref
  (group, version) ← of_result (parse_api_version source_ref.api_version)
  revision ← map_err flux_error (
      read (
        env.flux_revision ns group version source_ref.kind (pluralize_kind source_ref.kind)
          source_ref.name))
  elim revision [
    | none ↦ throw (transient artifact_not_ready)
    | some r ↦ return (record { commit = r; source_type = flux_source })
  ]

unfoldable pub program_artifact : Program → Option Artifact
program_artifact p = and_then p.status (λ s. s.artifact)

unfoldable pub resolve_program : Env → Text → ProgramReference → Op SourceInfo
unfolding program_artifact
resolve_program env ns program_ref = do
  found ← lift (read (env.store_program ns program_ref.name))
  elim found [
    | none ↦ throw (permanent program_not_found)
    | some p ↦ elim (program_artifact p) [
      | none ↦ throw (transient artifact_not_ready)
      | some a ↦ return (record { commit = a.revision; source_type = program_source })
    ]
  ]

unfoldable pub resolve : Env → Text → SourceKind → Op SourceInfo
unfolding resolve_flux resolve_program resolve_git
resolve env ns (git repo branch commit) = return (resolve_git commit)
resolve env ns (flux source) = resolve_flux env ns source
resolve env ns (program program_ref) = resolve_program env ns program_ref
