-- ===== src/Reconcile/Prerequisites.antt =====
-- src/operator/reconcile/prerequisites.rs: stacks that must have succeeded before.
pub mod Satisfied
use pulumi_rs_kube_operator.Base.{
  Bool, true, false, not, Option, none, some, and_then, List, [], ◌∷◌, Result, ok, err, Text, text,
  option_text_eq, Instant, ltb, if◌then◌else◌,
}
use pulumi_rs_kube_operator.Core.Time.{elapsed_since, parse_go_duration}
use pulumi_rs_kube_operator.Errors.{OperatorError, transient, prerequisite_not_satisfied}
use pulumi_rs_kube_operator.Api.Stack.{Stack, StackUpdateState, PrerequisiteRef}
use pulumi_rs_kube_operator.Reconcile.Sync.{last_update}
use pulumi_rs_kube_operator.Operator.Effects.{Env, Op, read}
use pulumi_rs_kube_operator.Operator.Fallible.{◌>>=◌, ◌>>◌, return, lift, of_result}

abbrev pub not_satisfied : {A : Type 0} → Result OperatorError A
not_satisfied = err (transient prerequisite_not_satisfied)

-- `parse` and `now` are chrono's parser and clock, `store` the informer's cache of one namespace.
module _ (parse : Text → Option Instant) (now : Instant) (store : Text → Option Stack) where
  -- The check of `succeededWithinDuration`, made if the requirement and the last time are there.
  unfoldable pub within_duration : PrerequisiteRef → StackUpdateState → Bool
  within_duration prereq status =
      elim (and_then prereq.requirement (λ r. r.succeeded_within_duration)) [
        | none ↦ true
        | some duration ↦ elim status.last_resync_time [
          | none ↦ true
          | some t ↦ not (ltb (parse_go_duration duration) (elapsed_since parse now (some t)))
        ]
      ]

  unfoldable pub check_last_update :
      PrerequisiteRef → Option StackUpdateState → Result OperatorError (Unit {0})
  unfolding within_duration
  check_last_update prereq none = not_satisfied
  check_last_update prereq (some status) =
      if not (option_text_eq status.state (some (text "succeeded")))
      then not_satisfied
      else if within_duration prereq status
      then ok tt
      else not_satisfied

  unfoldable pub check_stack : PrerequisiteRef → Option Stack → Result OperatorError (Unit {0})
  unfolding check_last_update
  check_stack prereq none = not_satisfied
  check_stack prereq (some stack) = check_last_update prereq (last_update stack)

  unfoldable pub check_single_prerequisite : PrerequisiteRef → Result OperatorError (Unit {0})
  unfolding check_stack
  check_single_prerequisite prereq = check_stack prereq (store prereq.name)

-- The cache, and the clock behind it, are read for each prerequisite anew.
unfoldable pub check_prerequisites : Env → (ns : Text) → List PrerequisiteRef → Op (Unit {0})
unfolding check_single_prerequisite
check_prerequisites env ns [] = return tt
check_prerequisites env ns (p ∷ ps) = do
  store ← lift (read (λ h name. env.store_stack ns name h))
  now ← lift (read env.utc)
  of_result (check_single_prerequisite env.parse_rfc3339 now store p)
  check_prerequisites env ns ps
