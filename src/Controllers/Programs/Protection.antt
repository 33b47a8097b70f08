-- ===== src/Controllers/Programs/Protection.antt =====
-- src/operator/controllers/program.rs, `reconcile_program`: when a Program is let go.
use pulumi_rs_kube_operator.Base.{
  ℕ, Bool, true, false, is_some, or_else, List, [], ◌∷◌, Text, text, ◌≡◌, ◌↔◌, refl, arith,
  Bool-cases, inl, inr, ◌==◌,
}
use pulumi_rs_kube_operator.Api.Meta.{has_finalizer, name_any}
use pulumi_rs_kube_operator.Api.Conditions.{program_finalizer}
use pulumi_rs_kube_operator.Api.Stack.{Stack}
use pulumi_rs_kube_operator.Api.Program.{Program}
use pulumi_rs_kube_operator.Operator.Finalizers.{program_finalizer_action, program_case}
use pulumi_rs_kube_operator.Controllers.Programs.{
  references, count_referencing_stacks, remove_finalizer, reconcile_action, reconcile_program,
}

-- No stack refers to the Program.
abbrev pub Unreferenced : (ns name : Text) → List Stack → Type 0
Unreferenced ns name [] = Unit {0}
Unreferenced ns name (s ∷ ss) = (references ns name s ≡ false) × Unreferenced ns name ss

count-Unreferenced :
    (ns name : Text) (ss : List Stack)
    → count_referencing_stacks ss ns name ≡ 0 ↔ Unreferenced ns name ss
unfolding count_referencing_stacks
count-Unreferenced ns name [] = (λ e. tt, λ u. refl)
count-Unreferenced ns name (s ∷ ss) =
    let (to, back) = count-Unreferenced ns name ss in
    elim (Bool-cases (references ns name s)) [
      | inl e ↦ rw e (λ z. absurd (omega (arith, z)), λ (u, us). absurd (ground arith))
      | inr e ↦ rw e (λ z. (refl, to z), λ (u, us). back us)
    ]

-- The Program is being deleted, holds the finalizer, and no stack refers to it.
pub record Removable (stacks : List Stack) (program : Program) : Type 0 where
  pub held : has_finalizer program.metadata program_finalizer ≡ true
  pub deleting : is_some program.metadata.deletion_timestamp ≡ true
  pub unreferenced :
      Unreferenced
        (or_else program.metadata.namespace (text "default"))
        (name_any program.metadata)
        stacks

decide :
    (n : ℕ) (has deleting none_left : Bool)
    → reconcile_action n (program_case has deleting none_left) ≡ remove_finalizer
    → (has ≡ true) × (deleting ≡ true) × (none_left ≡ true)
unfolding reconcile_action program_case
decide n false false false e = absurd (ground arith)
decide n false false true e = absurd (ground arith)
decide n false true false e = absurd (ground arith)
decide n false true true e = absurd (ground arith)
decide n true false false e = absurd (ground arith)
decide n true false true e = absurd (ground arith)
decide n true true false e = absurd (ground arith)
decide n true true true e = (refl, refl, refl)

-- `reconcile_program` has the finalizer removed exactly from a Program that is being deleted, holds
-- it, and is referred to by no stack of its namespace.
pub reconcile_program-Removable :
    (stacks : List Stack) (program : Program)
    → reconcile_program stacks program ≡ remove_finalizer ↔ Removable stacks program
unfolding reconcile_program program_finalizer_action
reconcile_program-Removable stacks program =
    let ns = or_else program.metadata.namespace (text "default") in
    let name = name_any program.metadata in
    let n = count_referencing_stacks stacks ns name in
    let (to, back) = count-Unreferenced ns name stacks in
    (
      λ e.
          let (held, deleting, zero_count) = decide n _ _ (n == 0) e in
          record { held = held; deleting = deleting; unreferenced = to (ground arith) },
      λ r. rw (back r.unreferenced, r.held, r.deleting) refl,
    )
