-- ===== src/Controllers/ExecuteUpdate/Verdict.antt =====
-- src/operator/controllers/mod.rs: the status that `execute_update` writes, and what `check_update`
-- of src/operator/controllers/update.rs reads of it.
use pulumi_rs_kube_operator.Base.{
  Option, none, some, Result, ok, err, Text, text, text_eq, ◌≡◌, inl, inr, refl, true, Option-cases,
}
use pulumi_rs_kube_operator.Errors.{OperatorError, display}
use pulumi_rs_kube_operator.Api.Conditions.{update_complete, update_failed}
use pulumi_rs_kube_operator.Api.Update.{Update, UpdateStatus}
use pulumi_rs_kube_operator.Operator.Status.{UpdatePatch}
use pulumi_rs_kube_operator.Operator.Effects.{Env, History, Fault, panicked, read}
use pulumi_rs_kube_operator.Operator.Fallible.{continue, return, lift, or_panic}
use pulumi_rs_kube_operator.Reconcile.CheckUpdate.{
  UpdateCheckResult, succeeded, failed, find_condition, is_true, check_status, check_reply,
  check_update, truncate_message,
}
use pulumi_rs_kube_operator.Controllers.StreamUpdate.{StreamResult}
use pulumi_rs_kube_operator.Controllers.ExecuteUpdate.{
  Runtime, update_condition, failed_update_patch, success_patch, outputs_json, final_patch,
}

-- The status of an Update has what a patch sets, of the fields that `check_update` reads.
pub record Applied (p : UpdatePatch) (s : UpdateStatus) : Type 0 where
  pub conditions : s.conditions ≡ p.conditions
  pub permalink : s.permalink ≡ p.permalink
  pub outputs : s.outputs ≡ p.outputs

abbrev pub failed_with : Option Text → Result Fault UpdateCheckResult
failed_with none = err panicked
failed_with (some m) = ok (failed m)

abbrev pub cut_short : Text → Result Fault UpdateCheckResult
cut_short message = failed_with (truncate_message message)

-- What is to be reported of an outcome: the failure's message, cut short, or the permalink and the
-- outputs.
abbrev pub verdict : Runtime → Result OperatorError StreamResult → Result Fault UpdateCheckResult
verdict rt (ok r) = elim r.error [
  | some message ↦ cut_short message
  | none ↦ ok (succeeded r.permalink (outputs_json rt r.outputs))
]
verdict rt (err e) = cut_short (display rt.source_text e)

failed_patch_found :
    (now end_time message : Text)
    → let cs = (failed_update_patch now end_time message).conditions in
      (find_condition update_complete cs
        ≡ some (
            update_condition update_complete
              (text "True")
              (text "UpdateFailed")
              (some message)
              end_time))
      × (find_condition update_failed cs
          ≡ some (
              update_condition update_failed
                (text "True")
                (text "UpdateFailed")
                (some message)
                end_time))
unfolding failed_update_patch update_condition find_condition text text_eq
failed_patch_found now end_time message = (refl, refl)

true_found :
    (type_ reason : Text) (message : Option Text) (now : Text)
    → is_true (some (update_condition type_ (text "True") reason message now)) ≡ true
unfolding is_true update_condition text text_eq
true_found type_ reason message now = refl

failed_with-or_panic :
    (o : Option Text) (h : History)
    → (continue (or_panic o h).0 (λ m. return (failed m)) (or_panic o h).1).0 ≡ failed_with o
unfolding continue or_panic return
failed_with-or_panic none h = refl
failed_with-or_panic (some m) h = refl

failed-check_status :
    (now end_time message : Text) (s : UpdateStatus) (h : History)
    → s.conditions ≡ (failed_update_patch now end_time message).conditions
    → (check_status s h).0 ≡ cut_short message
unfolding check_status update_condition
failed-check_status now end_time message s h c =
    let (complete, failure) = failed_patch_found now end_time message in
    rw (c, complete, failure, true_found _ _ _ _)
      (failed_with-or_panic (truncate_message message) h)

success_patch_found :
    (rt : Runtime) (now end_time : Text) (r : StreamResult)
    → let cs = (success_patch rt now end_time r).conditions in
      (is_true (find_condition update_complete cs) ≡ true)
      × (find_condition update_failed cs ≡ none)
unfolding success_patch update_condition find_condition is_true text text_eq
success_patch_found rt now end_time r = (refl, refl)

success-check_status :
    (rt : Runtime) (now end_time : Text) (r : StreamResult) (s : UpdateStatus) (h : History)
    → Applied (success_patch rt now end_time r) s
    → (check_status s h).0 ≡ ok (succeeded r.permalink (outputs_json rt r.outputs))
unfolding check_status return success_patch is_true
success-check_status rt now end_time r s h a =
    let (complete, failure) = success_patch_found rt now end_time r in
    rw (a.conditions, complete, failure, a.permalink, a.outputs) refl

-- `check_update` reads of the status that is written for an outcome what is to be reported of it.
pub final_patch-verdict :
    (rt : Runtime) (now end_time : Text) (outcome : Result OperatorError StreamResult)
    (s : UpdateStatus) (h : History)
    → Applied (final_patch rt now end_time outcome) s
    → (check_status s h).0 ≡ verdict rt outcome
unfolding final_patch
final_patch-verdict rt now end_time (err e) s h a =
    failed-check_status now end_time (display rt.source_text e) s h a.conditions
final_patch-verdict rt now end_time (ok r) s h a = elim (Option-cases r.error) [
  | inl e ↦ rw e (success-check_status rt now end_time r s h (rw e at a))
  | inr (m, e) ↦ rw e (failed-check_status now end_time m s h (rw e at a).conditions)
]

-- Once the status that the task writes for an outcome is the Update's, `check_update` answers what
-- is to be reported of that outcome: a failure with its message cut short, or success with the
-- permalink and the outputs.
pub final_patch-check_update :
    (env : Env) (rt : Runtime) (ns name now end_time : Text)
    (outcome : Result OperatorError StreamResult) (u : Update) (s : UpdateStatus) (h : History)
    → env.get_update ns name h ≡ ok u
    → u.status ≡ some s
    → Applied (final_patch rt now end_time outcome) s
    → (check_update env ns name h).0 ≡ verdict rt outcome
unfolding check_update check_reply continue lift read
final_patch-check_update env rt ns name now end_time outcome u s h got status applied =
    rw (got, status) (final_patch-verdict rt now end_time outcome s _ applied)
