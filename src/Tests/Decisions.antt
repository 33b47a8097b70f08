-- ===== src/Tests/Decisions.antt =====
-- The decisions that the pipeline rests on, at concrete inputs.
use pulumi_rs_kube_operator.Base.{
  true, false, none, some, [], ◌∷◌, Text, text, text_eq, ok, pos, from_secs, ◌≡◌, refl, ◌↔◌,
}
use pulumi_rs_kube_operator.Api.Meta.{annotation}
use pulumi_rs_kube_operator.Api.Conditions.{reconcile_request_ann}
use pulumi_rs_kube_operator.Api.Stack.{Stack}
use pulumi_rs_kube_operator.Reconcile.Sync.{is_synced, last_update}
use pulumi_rs_kube_operator.Reconcile.Prerequisites.{check_prerequisites}
use pulumi_rs_kube_operator.Reconcile.CheckUpdate.{truncate_message}
use pulumi_rs_kube_operator.Reconcile.CheckUpdate.Truncation.{truncate_message-Panics, Panics}
use pulumi_rs_kube_operator.Reconcile.Sync.{cooldown}
use pulumi_rs_kube_operator.Reconcile.Sync.Cooldown.{cooldown-closed_form, closed_form}
use pulumi_rs_kube_operator.Reconcile.Sync.InSync.{is_synced_iff, InSync}
use pulumi_rs_kube_operator.Reconcile.Sync.Requests.{is_synced-requested}
use pulumi_rs_kube_operator.Reconcile.Prerequisites.Satisfied.{
  check_prerequisites_iff, AllSatisfied,
}
use pulumi_rs_kube_operator.Operator.Effects.{Env}
use pulumi_rs_kube_operator.Actors.State.{default_state}
use pulumi_rs_kube_operator.Actors.Updates.{succeeded_update}
use pulumi_rs_kube_operator.Tests.Data.{
  key, start, stack, succeeded_stack, env, commit, metadata, status_of, update_name as made_name,
  prerequisite,
}

is_synced_iff_example :
    is_synced env.parse_rfc3339 (from_secs 1000) succeeded_stack commit ≡ true
    ↔ InSync env.parse_rfc3339 (from_secs 1000) succeeded_stack commit
is_synced_iff_example = is_synced_iff env.parse_rfc3339 (from_secs 1000) succeeded_stack commit

cooldown-closed_form_example : cooldown (pos 2) stack ≡ closed_form (pos 2) stack
cooldown-closed_form_example = cooldown-closed_form (pos 2) stack

abbrev requested_stack : Stack
requested_stack = record {
  metadata = record (metadata none) { annotations = (reconcile_request_ann, text "1") ∷ [] };
  spec = stack.spec;
  status =
      some (status_of (some (succeeded_update stack default_state (text "t") made_name none)) none);
}

is_requested :
    annotation reconcile_request_ann requested_stack.metadata.annotations ≡ some (text "1")
unfolding annotation text text_eq
is_requested = refl

is_written :
    last_update requested_stack
    ≡ some (succeeded_update stack default_state (text "t") made_name none)
unfolding last_update
is_written = refl

is_synced-requested_example :
    is_synced env.parse_rfc3339 (from_secs 1000) requested_stack commit ≡ false
is_synced-requested_example =
    is_synced-requested env.parse_rfc3339 (from_secs 1000) stack requested_stack default_state
      (text "t") made_name none (text "1") commit is_requested is_written

abbrev env_with_stack : Env
env_with_stack = record env { store_stack = λ ns name h. some succeeded_stack }

check_prerequisites_iff_example :
    (check_prerequisites env_with_stack key.ns (prerequisite ∷ []) start).0 ≡ ok tt
    ↔ AllSatisfied env_with_stack key.ns (prerequisite ∷ []) start
check_prerequisites_iff_example =
    check_prerequisites_iff env_with_stack key.ns (prerequisite ∷ []) start

-- 96 letters, the two bytes of an accented one, and four more letters.
abbrev accented : Text
accented =
    97 ∷ 97 ∷ 97 ∷ 97 ∷ 97 ∷ 97 ∷ 97 ∷ 97 ∷ 97 ∷ 97 ∷ 97 ∷ 97 ∷ 97 ∷ 97 ∷ 97 ∷ 97 ∷ 97 ∷ 97 ∷ 97
    ∷ 97 ∷ 97 ∷ 97 ∷ 97 ∷ 97 ∷ 97 ∷ 97 ∷ 97 ∷ 97 ∷ 97 ∷ 97 ∷ 97 ∷ 97 ∷ 97 ∷ 97 ∷ 97 ∷ 97 ∷ 97 ∷ 97
    ∷ 97 ∷ 97 ∷ 97 ∷ 97 ∷ 97 ∷ 97 ∷ 97 ∷ 97 ∷ 97 ∷ 97 ∷ 97 ∷ 97 ∷ 97 ∷ 97 ∷ 97 ∷ 97 ∷ 97 ∷ 97 ∷ 97
    ∷ 97 ∷ 97 ∷ 97 ∷ 97 ∷ 97 ∷ 97 ∷ 97 ∷ 97 ∷ 97 ∷ 97 ∷ 97 ∷ 97 ∷ 97 ∷ 97 ∷ 97 ∷ 97 ∷ 97 ∷ 97 ∷ 97
    ∷ 97 ∷ 97 ∷ 97 ∷ 97 ∷ 97 ∷ 97 ∷ 97 ∷ 97 ∷ 97 ∷ 97 ∷ 97 ∷ 97 ∷ 97 ∷ 97 ∷ 97 ∷ 97 ∷ 97 ∷ 97 ∷ 97
    ∷ 97 ∷ 195 ∷ 169 ∷ 97 ∷ 97 ∷ 97 ∷ 97 ∷ []

truncate_message-Panics_example : truncate_message accented ≡ none ↔ Panics accented
truncate_message-Panics_example = truncate_message-Panics accented
