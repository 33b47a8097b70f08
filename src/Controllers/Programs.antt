-- ===== src/Controllers/Programs.antt =====
-- src/operator/controllers/program.rs and `run_program_watcher` of controllers/mod.rs: the finalizer
-- of a Program, its artifact, and the stacks that refer to it.
pub mod Protection
pub mod Served
use pulumi_rs_kube_operator.Base.{
  ℕ, Bool, true, false, ◌&&◌, not, Option, none, some, or_else, List, [], ◌∷◌, ◌++◌, Result, ok,
  err, Text, text, text_eq, option_text_eq, ℤ, pos, decimal, decimal_int, retain, count, length,
  if◌then◌else◌,
}
use pulumi_rs_kube_operator.Errors.{OperatorError, permanent, spec_invalid}
use pulumi_rs_kube_operator.Api.Meta.{finalizers_of, name_any}
use pulumi_rs_kube_operator.Api.Conditions.{program_finalizer}
use pulumi_rs_kube_operator.Api.Stack.{Stack, ProgramReference}
use pulumi_rs_kube_operator.Api.Program.{Program, ProgramStatus, Artifact}
use pulumi_rs_kube_operator.Operator.Messages.{NameKey, reconcile, stack_changed}
use pulumi_rs_kube_operator.Operator.Finalizers.{
  program_finalizer_action, ProgramFinalizerAction, add_program, keep_program, remove_program,
  block_deletion,
}
use pulumi_rs_kube_operator.Operator.Effects.{
  Env, History, M, read, perform, request, pure, apply_program_finalizer, set_program_finalizers,
  patch_program_status, dispatch, ◌>>=◌, ◌>>◌,
}
use pulumi_rs_kube_operator.Controllers.Artifact.{Toolkit, artifact_path, build_artifact}
use pulumi_rs_kube_operator.Controllers.FileServer.{
  Artifacts, Bytes, store_artifact, remove_artifact,
}

-- A Stack of a namespace that refers to a Program.
unfoldable pub refers : Option ProgramReference → Text → Bool
refers none program_name = false
refers (some pr) program_name = text_eq pr.name program_name

unfoldable pub references : (ns program_name : Text) → Stack → Bool
unfolding refers
references ns program_name s =
    option_text_eq s.metadata.namespace (some ns) && refers s.spec.program_ref program_name

unfoldable pub count_referencing_stacks : List Stack → (ns program_name : Text) → ℕ
unfolding references
count_referencing_stacks stacks ns program_name = count (references ns program_name) stacks

pub data ProgramReconcileAction : Type 0 where
  add_finalizer remove_finalizer ensure_serving : ProgramReconcileAction
  block_deletion_by : (referencing_count : ℕ) → ProgramReconcileAction

unfoldable pub reconcile_action : ℕ → ProgramFinalizerAction → ProgramReconcileAction
reconcile_action referencing_count add_program = add_finalizer
reconcile_action referencing_count keep_program = ensure_serving
reconcile_action referencing_count remove_program = remove_finalizer
reconcile_action referencing_count block_deletion = block_deletion_by referencing_count

unfoldable pub reconcile_program : List Stack → Program → ProgramReconcileAction
unfolding count_referencing_stacks reconcile_action
reconcile_program stacks program =
    let ns = or_else program.metadata.namespace (text "default") in
    let n = count_referencing_stacks stacks ns (name_any program.metadata) in
    reconcile_action n (program_finalizer_action program n)

-- The rest of what the watcher uses: the tools, the informer's cache of Stacks, and the address of
-- the file server.
pub record Publisher : Type 1 where
  pub kit : Toolkit
  pub stacks : History → List Stack
  pub server_addr : Text

-- `trigger_referencing_stacks`: a message for each stack that refers to the Program.
unfoldable pub trigger_loop : (ns program_name : Text) → List Stack → M (Unit {0})
unfolding references
trigger_loop ns program_name [] = pure tt
trigger_loop ns program_name (s ∷ ss) =
    (if references ns program_name s
      then perform
          (dispatch (record { ns = ns; name = name_any s.metadata }) (reconcile stack_changed))
      else pure tt)
    >> trigger_loop ns program_name ss

unfoldable pub trigger_referencing_stacks : Publisher → (ns program_name : Text) → M (Unit {0})
unfolding trigger_loop
trigger_referencing_stacks p ns program_name = do
  stacks ← read p.stacks
  trigger_loop ns program_name stacks

abbrev pub generation_of : Program → ℤ
generation_of program = or_else program.metadata.generation (pos 0)

-- Store what was built, and publish it in the status.
unfoldable pub publish :
    Env
    → (ns name : Text) → (generation : ℤ) → Result OperatorError (Artifact × Bytes)
    → Artifacts
    → M Artifacts
publish env ns name generation (err e) artifacts = pure artifacts
publish env ns name generation (ok (artifact, bytes)) artifacts = do
  let artifacts' = store_artifact artifact.path bytes artifacts
  request env (
      patch_program_status ns name
        (record { observed_generation = generation; artifact = some artifact }))
  pure artifacts'

unfoldable pub ensure_served :
    Env → Publisher → (ns name : Text) → Program → Artifacts → M Artifacts
unfolding trigger_referencing_stacks publish
ensure_served env p ns name program artifacts = do
  now ← read env.utc
  let generation = generation_of program
  let built = build_artifact p.kit program ns name generation p.server_addr (env.to_rfc3339 now)
  artifacts' ← publish env ns name generation built artifacts
  trigger_referencing_stacks p ns name
  pure artifacts'

-- What the watcher does; that a request fails is only logged.
unfoldable pub react :
    Env → Publisher → (ns name : Text) → Program → Artifacts → ProgramReconcileAction → M Artifacts
unfolding ensure_served
react env p ns name program artifacts add_finalizer = do
  request env (apply_program_finalizer ns name)
  pure artifacts
react env p ns name program artifacts remove_finalizer = do
  let others = retain (λ f. not (text_eq f program_finalizer)) (finalizers_of program.metadata)
  request env (set_program_finalizers ns name others)
  pure artifacts
react env p ns name program artifacts ensure_serving = ensure_served env p ns name program artifacts
react env p ns name program artifacts (block_deletion_by n) = pure artifacts

-- A Program of a namespace; one without is passed over.
unfoldable pub applied_in : Env → Publisher → Option Text → Program → Artifacts → M Artifacts
unfolding reconcile_program react
applied_in env p none program artifacts = pure artifacts
applied_in env p (some ns) program artifacts = do
  stacks ← read p.stacks
  react env p ns (name_any program.metadata) program artifacts (reconcile_program stacks program)

-- The event that a Program was applied.
unfoldable pub program_applied : Env → Publisher → Program → Artifacts → M Artifacts
unfolding applied_in
program_applied env p program artifacts =
    applied_in env p program.metadata.namespace program artifacts

unfoldable pub drop_artifact : Option Text → Program → Artifacts → Artifacts
unfolding artifact_path
drop_artifact none program artifacts = artifacts
drop_artifact (some ns) program artifacts =
    remove_artifact (artifact_path ns (name_any program.metadata) (generation_of program)) artifacts

-- The event that a Program is gone: the artifact of its last generation is dropped.
unfoldable pub program_deleted : Program → Artifacts → Artifacts
unfolding drop_artifact
program_deleted program artifacts = drop_artifact program.metadata.namespace program artifacts

-- `file_server_address`: the environment variables, the file with the namespace of the pod and
-- `str::trim` are arguments.
unfoldable pub file_server_address :
    (trim : Text → Text) (service_name namespace namespace_file : Option Text) (port : ℕ) → Text
file_server_address trim service_name namespace namespace_file port =
    or_else service_name (text "pulumi-operator")
    ++ text "."
    ++ or_else namespace (trim (or_else namespace_file (text "pulumi-system")))
    ++ text ".svc.cluster.local:"
    ++ decimal port

abbrev pub file_server_port : ℕ
file_server_port = 9090
