-- ===== src/Reconcile/CheckUpdate/Verdict.antt =====
-- src/operator/controllers/update.rs, `check_update`: what its verdicts say of the Update.
use pulumi_rs_kube_operator.Base.{true, false, Option, none, some, ok, err, Text, ◌≡◌, refl, arith}
use pulumi_rs_kube_operator.Api.Conditions.{update_complete, update_failed}
use pulumi_rs_kube_operator.Api.Update.{Update, UpdateStatus}
use pulumi_rs_kube_operator.Operator.Effects.{Env, History, Kube, api, other_error, read}
use pulumi_rs_kube_operator.Operator.Fallible.{continue, return, throw, lift, or_panic}
use pulumi_rs_kube_operator.Reconcile.CheckUpdate.{
  succeeded, find_condition, is_true, check_status, check_reply, check_update,
}

-- The Update finished without a failure.
pub record Completed (u : Update) : Type 0 where
  pub status : UpdateStatus
  pub has_status : u.status ≡ some status
  pub complete : is_true (find_condition update_complete status.conditions) ≡ true
  pub not_failed : is_true (find_condition update_failed status.conditions) ≡ false

check_status_succeeded :
    (s : UpdateStatus) (h : History) {p o : Option Text}
    → (check_status s h).0 ≡ ok (succeeded p o)
    → (is_true (find_condition update_complete s.conditions) ≡ true)
      × (is_true (find_condition update_failed s.conditions) ≡ false)
unfolding check_status continue return or_panic
check_status_succeeded s h e = ground arith

update_succeeded_status :
    (u : Update) (st : Option UpdateStatus) (h : History) {p o : Option Text}
    → u.status ≡ st
    → (check_reply (ok (record u { status = st })) h).0 ≡ ok (succeeded p o)
    → Completed u
unfolding check_reply return
update_succeeded_status u none h q e = cc
update_succeeded_status u (some s) h q e =
    let (c, f) = check_status_succeeded s h e in
    record { status = s; has_status = q; complete = c; not_failed = f }

pub check_reply_succeeded :
    (r : Kube Update) (h : History) {p o : Option Text}
    → (check_reply r h).0 ≡ ok (succeeded p o)
    → (u : Update) × (r ≡ ok u) × Completed u
unfolding check_reply return throw
check_reply_succeeded (ok u) h e = (u, refl, update_succeeded_status u u.status h refl e)
check_reply_succeeded (err (api code)) h e = absurd (ground arith)
check_reply_succeeded (err other_error) h e = cc

-- `check_update` answers "succeeded" only if the Update was read, is complete and has not failed.
pub check_update_succeeded :
    (env : Env) (ns name : Text) (h : History) {p o : Option Text}
    → (check_update env ns name h).0 ≡ ok (succeeded p o)
    → (u : Update) × (env.get_update ns name h ≡ ok u) × Completed u
unfolding check_update continue lift read
check_update_succeeded env ns name h e = check_reply_succeeded (env.get_update ns name h) _ e

-- `check_update` only reads.
pub check_update-effects :
    (env : Env) (ns name : Text) (h : History) → (check_update env ns name h).1.effects ≡ h.effects
unfolding check_update check_reply check_status continue lift read return throw or_panic
check_update-effects env ns name h = ground arith

-- A complete Update that has not failed is answered as succeeded.
pub check_update-Completed :
    (env : Env) (ns name : Text) (h : History) (u : Update)
    → env.get_update ns name h ≡ ok u
    → Completed u
    → (p o : Option Text) × ((check_update env ns name h).0 ≡ ok (succeeded p o))
unfolding check_update check_reply check_status continue lift read return throw or_panic
check_update-Completed env ns name h u q c = (
  c.status.permalink,
  c.status.outputs,
  rw q (rw c.has_status (ground (arith, c.complete, c.not_failed))),
)
