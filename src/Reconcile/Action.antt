-- ===== src/Reconcile/Action.antt =====
-- src/operator/reconcile/pipeline.rs: what a run of the pipeline asks the actor to do.
use pulumi_rs_kube_operator.Base.{Text, Option, ℤ}

pub data ReconcileAction : Type 0 where
  add_finalizer done remove_finalizer synced wait_for_workspace : ReconcileAction
  wait_for_update update_created destroy_started : (name : Text) → ReconcileAction
  destroy_failed : (name : Text) → (failures : ℤ) → ReconcileAction
  remove_finalizer_after_destroy : ReconcileAction
  project_missing : (project_id : Text) → ReconcileAction
  project_reinstated project_ttl_expired : ReconcileAction
  update_succeeded : (name : Text) → (permalink outputs : Option Text) → ReconcileAction
  update_failed : (name message : Text) → ReconcileAction
