-- ===== src/Operator/Finalizers.antt =====
-- src/operator/finalizers.rs: what to do about the finalizers of Stacks and Programs, and an Update
-- that is born with its finalizer.
use pulumi_rs_kube_operator.Base.{ℕ, Bool, true, false, none, some, is_some, [], ◌∷◌, Text, ◌==◌}
use pulumi_rs_kube_operator.Api.Meta.{OwnerReference, has_finalizer}
use pulumi_rs_kube_operator.Api.Conditions.{stack_finalizer, program_finalizer}
use pulumi_rs_kube_operator.Api.Stack.{Stack}
use pulumi_rs_kube_operator.Api.Program.{Program}
use pulumi_rs_kube_operator.Api.Update.{Update, UpdateSpec}

pub data StackFinalizerAction : Type 0 where
  add keep already_finalized remove_immediately run_destroy : StackFinalizerAction

-- The match on (has, deleting, destroy, preview).
unfoldable pub stack_case : Bool → Bool → Bool → Bool → StackFinalizerAction
stack_case false false _ _ = add
stack_case true false _ _ = keep
stack_case false true _ _ = already_finalized
stack_case true true _ true = remove_immediately
stack_case true true false _ = remove_immediately
stack_case true true true false = run_destroy

unfoldable pub stack_finalizer_action : Stack → StackFinalizerAction
unfolding stack_case
stack_finalizer_action stack =
    stack_case (has_finalizer stack.metadata stack_finalizer)
      (is_some stack.metadata.deletion_timestamp) stack.spec.destroy_on_finalize stack.spec.preview

pub data ProgramFinalizerAction : Type 0 where
  add_program keep_program remove_program block_deletion : ProgramFinalizerAction

-- The match on (has, deleting, no_refs).
unfoldable pub program_case : Bool → Bool → Bool → ProgramFinalizerAction
program_case false false false = add_program
program_case false _ true = keep_program
program_case true true true = remove_program
program_case true true false = block_deletion
program_case _ _ _ = keep_program

unfoldable pub program_finalizer_action : Program → ℕ → ProgramFinalizerAction
unfolding program_case
program_finalizer_action program referencing_count =
    program_case (has_finalizer program.metadata program_finalizer)
      (is_some program.metadata.deletion_timestamp) (referencing_count == 0)

unfoldable pub build_update_with_finalizer : Text → Text → UpdateSpec → OwnerReference → Update
build_update_with_finalizer name namespace spec owner_ref = record {
  metadata = record {
    name = some name;
    namespace = some namespace;
    uid = none;
    generation = none;
    deletion_timestamp = none;
    finalizers = some (stack_finalizer ∷ []);
    annotations = [];
    owner_references = owner_ref ∷ [];
  };
  spec = spec;
  status = none;
}
